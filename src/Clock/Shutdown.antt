-- ===== src/Clock/Shutdown.antt =====
-- hw/rust/backbone/clock/src/lib.rs: both threads after the drop of the manager has raised the flag.
use qenode.Base.{
  ℕ, ◌≡◌, refl, inl, inr, Bool, true, false, none, List, [], ◌∷◌, arith, Bool-cases, ltb,
}
use qenode.Clock.Backend.{QuantumState, executing, waiting, VirtmcuClockBackend}
use qenode.Clock.Vcpu.{
  Vcpu, running, entering, spinning, blocked, parked, loading, resuming, announce, spin, block,
  wake,
}
use qenode.Clock.Worker.{
  Worker, starting, receiving, readying, granting, awaiting, reporting, answering, held, stopped,
  aborted, begin_round, miss, receive, look_ready, grant, look_done, finish_quantum, collect_stall,
  response,
}
use qenode.Clock.System.{
  System, Event, announces, polls, wakes, loads, begins, receives, looks, grants, collects, answers,
  run, step, send_ready,
}

-- The accesses that take the worker from wherever it is to the head of its loop and through it; the
-- receive gives up.
abbrev pub wind_down : List Event
wind_down = receives none ∷ looks false ∷ grants ∷ looks false ∷ collects ∷ answers ∷ begins ∷ []

-- The worker neither runs nor waits for a start.
abbrev pub has_ended : Worker → Bool
has_ended stopped = true
has_ended aborted = true
has_ended _ = false

abbrev pub is_held : Worker → Bool
is_held (held resp) = true
is_held _ = false

run-wind_down-at :
    (w : Worker) (s : System)
    → s.backend.shutdown ≡ true
    → s.backend.is_coordinated ≡ false
    → is_held w ≡ false
    → has_ended (run wind_down (record s { worker = w })).worker ≡ true
unfolding run step begin_round receive miss look_ready look_done finish_quantum grant collect_stall
    response send_ready
run-wind_down-at starting s down alone h = simp down refl
run-wind_down-at (receiving true) s down alone h = simp down refl
run-wind_down-at (receiving false) s down alone h = simp down refl
run-wind_down-at (readying req first) s down alone h = simp (down, alone) refl
run-wind_down-at (granting req true) s down alone h = elim (Bool-cases (ltb 0 req.delta_ns)) [
  | inl e ↦ simp (e, down, alone) refl
  | inr e ↦ simp (e, down, alone) refl
]
run-wind_down-at (granting req false) s down alone h = elim (Bool-cases (ltb 0 req.delta_ns)) [
  | inl e ↦ simp (e, down, alone) refl
  | inr e ↦ simp (e, down, alone) refl
]
run-wind_down-at (awaiting req first) s down alone h = simp (down, alone) refl
run-wind_down-at (reporting req code) s down alone h = simp (down, alone) refl
run-wind_down-at (answering req code) s down alone h = simp (down, alone) refl
run-wind_down-at (held resp) s down alone h = absurd (ground (arith, h))
run-wind_down-at stopped s down alone h = refl
run-wind_down-at aborted s down alone h = refl

-- The vCPU is not in the wait: it runs, or is about to return.
abbrev pub is_out : Vcpu → Bool
is_out running = true
is_out (resuming now raw_delta) = true
is_out _ = false

abbrev pub leave : (expired should_yield spun_enough : Bool) → List Event
leave expired should_yield spun_enough =
    announces ∷ wakes expired ∷ polls should_yield spun_enough ∷ loads ∷ []

spin-out :
    (y e : Bool) (now : ℕ) (st : QuantumState) (s : System)
    → is_out (step loads (record s { vcpu = spin y e now true st })).vcpu ≡ true
unfolding step spin
spin-out y e now executing s = refl
spin-out y e now waiting s = refl

block-out :
    (y : Bool) (now : ℕ) (st : QuantumState) (s : System)
    → is_out (step loads (record s { vcpu = block y now true st })).vcpu ≡ true
unfolding step block
block-out y now executing s = refl
block-out y now waiting s = refl

announce-shutdown :
    (y : Bool) (b : VirtmcuClockBackend) → b.shutdown ≡ true → (announce y b).shutdown ≡ true
unfolding announce
announce-shutdown true b down = down
announce-shutdown false b down = down

run-leave-at :
    (expired y e : Bool) (v : Vcpu) (s : System)
    → s.backend.shutdown ≡ true
    → is_out (run (leave expired y e) (record s { vcpu = v })).vcpu ≡ true
unfolding run step announce spin block wake
run-leave-at expired y e running s down = refl
run-leave-at expired y e (entering now) s down =
    let b = announce s.device.is_yielding s.backend in
    simp (announce-shutdown s.device.is_yielding s.backend down)
      (spin-out y e now b.state (record s { backend = b }))
run-leave-at expired y e (spinning now) s down = simp down (spin-out y e now s.backend.state s)
run-leave-at expired y e (blocked now) s down = simp down (block-out y now s.backend.state s)
run-leave-at true y e (parked now) s down = refl
run-leave-at false y e (parked now) s down = simp down (block-out y now s.backend.state s)
run-leave-at expired y e (loading now) s down = refl
run-leave-at expired y e (resuming now raw_delta) s down = refl

-- After the drop, wherever the two threads are, a node that no coordinator holds back comes to an
-- end: the vCPU is out of the wait after one access of each kind that the wait has, and the worker,
-- which is not held for a start, has left its loop after one turn in which no request comes.
pub run-after_drop :
    (expired should_yield spun_enough : Bool) (s : System)
    → s.backend.shutdown ≡ true
    → s.backend.is_coordinated ≡ false
    → is_held s.worker ≡ false
    → (is_out (run (leave expired should_yield spun_enough) s).vcpu ≡ true)
      × (has_ended (run wind_down s).worker ≡ true)
run-after_drop expired should_yield spun_enough s down alone free = (
  run-leave-at expired should_yield spun_enough s.vcpu s down,
  run-wind_down-at s.worker s down alone free,
)
