-- ===== src/Clock/Watchdog.antt =====
-- hw/rust/backbone/clock/src/lib.rs: the watchdog of the worker, which gives a session up when the
-- time authority stays silent.
use native.Mathlib.Nat.{mod-eq_of_lt, div-mul-le_self, lt-div-mul-add, mul-div_right}
use qenode.Base.{
  ℕ, zero, suc, ◌+◌, ◌*◌, ◌%◌, ◌^◌, ◌≤◌, ◌<◌, ◌≡◌, refl, sym, ◌∙◌, ap, Bool, true, false, none,
  List, [], ◌∷◌, arith, ltb, lt→ltb,
}
use qenode.Clock.Backend.{
  watchdog_threshold_for, stall_ms_for, watchdog_ms_for, realize_backend, clock_init_with_transport,
}
use qenode.Clock.Worker.{Worker, begin_round, miss, receive}
use qenode.Clock.System.{System, Event, begins, receives, run, step}

-- The worker waits for a request `k` times, and none comes.
abbrev pub misses : (k : ℕ) → List Event
misses zero = []
misses (suc k) = begins ∷ receives none ∷ misses k

-- The worker is at the head of its loop, and nothing shuts down.
pub record IsListening (is_first : Bool) (s : System) : Type 0 where
  pub at_head : s.worker ≡ Worker.starting
  pub up : s.backend.shutdown ≡ false
  pub first : s.backend.is_first_quantum ≡ is_first

-- One miss
abbrev missed : System → System
missed s = run (begins ∷ receives none ∷ []) s

abbrev counted : System → System
counted s = record s {
  backend = record s.backend { consecutive_timeouts = suc s.backend.consecutive_timeouts };
}

missed-counted :
    (s : System)
    → IsListening false s
    → s.backend.consecutive_timeouts < s.backend.watchdog_threshold
    → s.backend.watchdog_threshold < 2 ^ 64
    → missed s ≡ counted s
unfolding run step begin_round receive miss
missed-counted s h few small =
    let c = s.backend.consecutive_timeouts in
    let whole : (c + 1) % 2 ^ 64 ≡ suc c = omega (arith, few, small) in
    let under : ltb s.backend.watchdog_threshold (suc c) ≡ false = ground (arith, few) in
    simp (h.at_head, h.up, h.first, whole, under) refl

missed-aborted :
    (s : System)
    → IsListening false s
    → s.backend.consecutive_timeouts ≡ s.backend.watchdog_threshold
    → s.backend.watchdog_threshold + 1 < 2 ^ 64
    → (missed s).worker ≡ Worker.aborted
unfolding run step begin_round receive miss
missed-aborted s h full small =
    let t = s.backend.watchdog_threshold in
    let over : ltb t ((s.backend.consecutive_timeouts + 1) % 2 ^ 64) ≡ true =
      lt→ltb t _ (omega (arith, full, small)) in
    simp (h.at_head, h.up, h.first, over) refl

counted-IsListening : (s : System) → IsListening false s → IsListening false (counted s)
counted-IsListening s h = record { at_head = h.at_head; up = h.up; first = h.first }

run-misses-patient :
    (k : ℕ) (s : System)
    → IsListening false s
    → s.backend.consecutive_timeouts + k ≤ s.backend.watchdog_threshold
    → s.backend.watchdog_threshold < 2 ^ 64
    → (run (misses k) s).worker ≡ Worker.starting
unfolding run
run-misses-patient zero s h few small = h.at_head
run-misses-patient (suc k) s h few small =
    let one = missed-counted s h (omega (arith, few)) small in
    ap (λ t. (run (misses k) t).worker) one
    ∙ run-misses-patient k (counted s) (counted-IsListening s h) (omega (arith, few)) small

run-misses-aborted :
    (k : ℕ) (s : System)
    → IsListening false s
    → s.backend.consecutive_timeouts + k ≡ s.backend.watchdog_threshold
    → s.backend.watchdog_threshold + 1 < 2 ^ 64
    → (run (misses (suc k)) s).worker ≡ Worker.aborted
unfolding run
run-misses-aborted zero s h full small = missed-aborted s h (omega (arith, full)) small
run-misses-aborted (suc k) s h full small =
    let one = missed-counted s h (omega (arith, full)) (omega (arith, small)) in
    ap (λ t. (run (misses (suc k)) t).worker) one
    ∙ run-misses-aborted k (counted s) (counted-IsListening s h) (omega (arith, full)) small

-- After the first quantum, with the worker at the head of its loop and nothing shut down, as many
-- requests in a row may fail to come as are left to the threshold, and the worker listens again
-- after each; with one more it aborts.
pub run-misses :
    (k : ℕ) (s : System)
    → IsListening false s
    → s.backend.consecutive_timeouts + k ≡ s.backend.watchdog_threshold
    → s.backend.watchdog_threshold + 1 < 2 ^ 64
    → ((j : ℕ) → j ≤ k → (run (misses j) s).worker ≡ Worker.starting)
      × ((run (misses (suc k)) s).worker ≡ Worker.aborted)
run-misses k s h full small = (
  λ j le. run-misses-patient j s h (omega (arith, full, le)) (omega (arith, small)),
  run-misses-aborted k s h full small,
)

missed-first : (s : System) → IsListening true s → missed s ≡ s
unfolding run step begin_round receive miss
missed-first s h =
    simp (h.at_head, h.up, h.first) (ap (λ w. record s { worker = w }) (sym h.at_head))

-- Before the first quantum has been done, no number of misses changes anything.
pub run-misses-first : (k : ℕ) (s : System) → IsListening true s → run (misses k) s ≡ s
unfolding run
run-misses-first zero s h = refl
run-misses-first (suc k) s h = ap (run (misses k)) (missed-first s h) ∙ run-misses-first k s h

stall_ms_for-pos : (stall_timeout : ℕ) → 0 < stall_ms_for stall_timeout
unfolding stall_ms_for
stall_ms_for-pos stall_timeout = ground arith

stall_ms_for-room :
    (stall_timeout : ℕ) → stall_timeout * 3 < 2 ^ 32 → stall_ms_for stall_timeout * 3 < 2 ^ 32
unfolding stall_ms_for
stall_ms_for-room stall_timeout room = ground (arith, room)

watchdog_threshold-default :
    (stall_timeout : ℕ)
    → stall_timeout * 3 < 2 ^ 32
    → watchdog_threshold_for
        (watchdog_ms_for 0 (stall_ms_for stall_timeout))
        (stall_ms_for stall_timeout)
      ≡ 3
unfolding watchdog_threshold_for watchdog_ms_for
watchdog_threshold-default stall_timeout room =
    let stall = stall_ms_for stall_timeout in
    let pos = stall_ms_for-pos stall_timeout in
    let small : stall_ms_for stall_timeout * 3 < 2 ^ 32 = stall_ms_for-room stall_timeout room in
    let whole : stall * 3 % 2 ^ 32 ≡ stall * 3 = mod-eq_of_lt small in
    rw (whole, lt→ltb 0 (stall * 3) (omega (arith, pos)), lt→ltb 0 stall pos, mul-div_right 3 pos)
      refl

watchdog_threshold-bounds :
    (session_watchdog_ms stall : ℕ)
    → 0 < session_watchdog_ms
    → 0 < stall
    → let t = watchdog_threshold_for (watchdog_ms_for session_watchdog_ms stall) stall in
      (t * stall ≤ session_watchdog_ms) × (session_watchdog_ms < t * stall + stall)
unfolding watchdog_threshold_for watchdog_ms_for
watchdog_threshold-bounds session_watchdog_ms stall set pos =
    simp (lt→ltb 0 session_watchdog_ms set, lt→ltb 0 stall pos)
      (div-mul-le_self session_watchdog_ms stall, lt-div-mul-add pos)

-- A device whose timeout and watchdog are set gives a session up after the misses that fit into the
-- watchdog's time; one whose watchdog is not set allows three, as long as three of its timeouts fit
-- into 32 bits.
pub realize_backend-threshold :
    (node_id stall_timeout session_watchdog_ms : ℕ) (coordinated : Bool)
    → stall_timeout * 3 < 2 ^ 32
    → let b = realize_backend node_id stall_timeout coordinated session_watchdog_ms in
      (0 < session_watchdog_ms
        → (b.watchdog_threshold * b.stall_timeout_ms ≤ session_watchdog_ms)
          × (session_watchdog_ms < b.watchdog_threshold * b.stall_timeout_ms + b.stall_timeout_ms))
      × (session_watchdog_ms ≡ 0 → b.watchdog_threshold ≡ 3)
unfolding realize_backend clock_init_with_transport
realize_backend-threshold node_id stall_timeout session_watchdog_ms coordinated room = (
  λ set.
      watchdog_threshold-bounds session_watchdog_ms (stall_ms_for stall_timeout) set
        (stall_ms_for-pos stall_timeout),
  λ unset. rw unset (watchdog_threshold-default stall_timeout room),
)
