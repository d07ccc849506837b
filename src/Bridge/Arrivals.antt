-- ===== src/Bridge/Arrivals.antt =====
-- hw/rust/common/virtmcu-qom/src/cosim.rs: what the shared state is after arrivals.
use qenode.Base.{
  ◌≡◌, refl, ◌∙◌, Bool, true, false, ◌||◌, Option, none, some, List, [], ◌∷◌, ◌++◌, arith,
}
use qenode.Bridge.Cosim.{
  BridgeState, Arrival, response, connected, disconnected, dispatch_response, notify_connected,
  notify_disconnected, arrive, arrive_all,
}

module _ {Resp : Type 0} where
  -- The last response, unless the connection was lost after it
  abbrev pub latest : Option Resp → List (Arrival Resp) → Option Resp
  latest o [] = o
  latest o (response resp ∷ xs) = latest (some resp) xs
  latest o (connected ∷ xs) = latest o xs
  latest o (disconnected ∷ xs) = latest none xs

  pub arrive_all-latest :
      (xs : List (Arrival Resp)) (s : BridgeState Resp)
      → (arrive_all xs s).current_resp ≡ latest s.current_resp xs
  unfolding arrive_all arrive dispatch_response notify_connected notify_disconnected
  arrive_all-latest [] s = refl
  arrive_all-latest (response resp ∷ xs) s = arrive_all-latest xs (dispatch_response resp s)
  arrive_all-latest (connected ∷ xs) s = arrive_all-latest xs (notify_connected s)
  arrive_all-latest (disconnected ∷ xs) s = arrive_all-latest xs (notify_disconnected s)

  pub latest-append :
      (o : Option Resp) (xs ys : List (Arrival Resp))
      → latest o (xs ++ ys) ≡ latest (latest o xs) ys
  latest-append o [] ys = refl
  latest-append o (response resp ∷ xs) ys = latest-append (some resp) xs ys
  latest-append o (connected ∷ xs) ys = latest-append o xs ys
  latest-append o (disconnected ∷ xs) ys = latest-append none xs ys

  -- Whether a response has come, or the loss of the connection
  abbrev pub heard : List (Arrival Resp) → Bool
  heard [] = false
  heard (response resp ∷ xs) = true
  heard (connected ∷ xs) = heard xs
  heard (disconnected ∷ xs) = true

  pub arrive_all-heard :
      (xs : List (Arrival Resp)) (s : BridgeState Resp)
      → (arrive_all xs s).has_resp ≡ (s.has_resp || heard xs)
  unfolding arrive_all arrive dispatch_response notify_connected notify_disconnected
  arrive_all-heard [] s = ground arith
  arrive_all-heard (response resp ∷ xs) s =
      let h = arrive_all-heard xs (dispatch_response resp s) in h ∙ ground arith
  arrive_all-heard (connected ∷ xs) s = arrive_all-heard xs (notify_connected s)
  arrive_all-heard (disconnected ∷ xs) s =
      let h = arrive_all-heard xs (notify_disconnected s) in h ∙ ground arith

  pub heard-append : (xs ys : List (Arrival Resp)) → heard (xs ++ ys) ≡ (heard xs || heard ys)
  heard-append [] ys = refl
  heard-append (response resp ∷ xs) ys = refl
  heard-append (connected ∷ xs) ys = heard-append xs ys
  heard-append (disconnected ∷ xs) ys = refl
