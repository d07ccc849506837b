-- ===== src/Bridge/Cosim.antt =====
-- hw/rust/common/virtmcu-qom/src/cosim.rs: the state that the receive loop and a waiting vCPU share,
-- and the wait. Between two tests of the vCPU the receive loop may do anything; what it does there,
-- and what the wall clock says, is the schedule.
use qenode.Base.{Bool, true, false, not, ◌&&◌, Option, none, some, List, [], ◌∷◌, if◌then◌else◌}

pub record BridgeState (Resp : Type 0) : Type 0 where
  pub has_resp : Bool
  pub current_resp : Option Resp
  pub is_connected : Bool

-- What the receive loop does to the state
pub data Arrival (Resp : Type 0) : Type 0 where
  response : Resp → Arrival Resp
  connected : Arrival Resp
  disconnected : Arrival Resp

-- One round of the wait: the tests, and what arrives while the vCPU waits
pub record Round (Resp : Type 0) : Type 0 where
  pub running : Bool
  pub timed_out : Bool  -- at the test before the wait
  pub arrivals : List (Arrival Resp)
  pub expired : Bool  -- after the wait

module _ {Resp : Type 0} where
  -- `BridgeInner::new`
  unfoldable pub new : BridgeState Resp
  new = record { has_resp = false; current_resp = none; is_connected = false }

  unfoldable pub dispatch_response : Resp → BridgeState Resp → BridgeState Resp
  dispatch_response resp s = record s { current_resp = some resp; has_resp = true }

  unfoldable pub notify_connected : BridgeState Resp → BridgeState Resp
  notify_connected s = record s { is_connected = true }

  unfoldable pub notify_disconnected : BridgeState Resp → BridgeState Resp
  notify_disconnected s = record s { is_connected = false; has_resp = true; current_resp = none }

  unfoldable pub arrive : Arrival Resp → BridgeState Resp → BridgeState Resp
  unfolding dispatch_response notify_connected notify_disconnected
  arrive (response resp) s = dispatch_response resp s
  arrive connected s = notify_connected s
  arrive disconnected s = notify_disconnected s

  unfoldable pub arrive_all : List (Arrival Resp) → BridgeState Resp → BridgeState Resp
  unfolding arrive
  arrive_all [] s = s
  arrive_all (a ∷ xs) s = arrive_all xs (arrive a s)

  -- `send_and_wait`, the reset before the request
  unfoldable pub clear : BridgeState Resp → BridgeState Resp
  clear s = record s { has_resp = false; current_resp = none }

  -- The loop of `send_and_wait`; none while it still waits
  unfoldable pub wait_loop : List (Round Resp) → BridgeState Resp → Option (BridgeState Resp)
  unfolding arrive_all
  wait_loop [] s = none
  wait_loop (r ∷ rs) s =
      let after = arrive_all r.arrivals s in
      let rest = wait_loop rs after in
      if r.running && not s.has_resp
      then if r.timed_out then some s else if r.expired then some after else rest
      else some s

  -- `current_resp.take()`
  unfoldable pub take_response : Option (BridgeState Resp) → Option (Option Resp × BridgeState Resp)
  take_response none = none
  take_response (some s) = some (s.current_resp, record s { current_resp = none })

  -- `send_and_wait`: `before` arrives between the reset and the wait.
  unfoldable pub send_and_wait :
      (running sent : Bool) (before : List (Arrival Resp)) (rounds : List (Round Resp))
      → BridgeState Resp
      → Option (Option Resp × BridgeState Resp)
  unfolding clear arrive_all wait_loop take_response
  send_and_wait running sent before rounds s =
      let sent_state = arrive_all before (clear s) in
      if running
      then if sent then take_response (wait_loop rounds sent_state) else some (none, sent_state)
      else some (none, s)

  -- `wait_connected`: the loop, and its answer
  unfoldable pub wait_connected : List (Round Resp) → BridgeState Resp → Option Bool
  unfolding arrive_all
  wait_connected [] s = none
  wait_connected (r ∷ rs) s =
      let rest = wait_connected rs (arrive_all r.arrivals s) in
      if r.running && not s.is_connected
      then if r.timed_out then some false else rest
      else some s.is_connected
