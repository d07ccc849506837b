-- ===== src/Clock/Handshake/Run.antt =====
-- The hand-over of quanta over whole runs.
use qenode.Base.{
  arith, ◌==◌, ◌<◌, ◌⊎◌, inl, inr, sym, ℕ, ◌≡◌, refl, Bool, true, false, List, [], ◌∷◌, ◌++◌,
}
use qenode.Clock.Backend.{
  QuantumState, VirtmcuClockBackend, realize_backend, clock_init_with_transport,
}
use qenode.Clock.Vcpu.{Vcpu, u32_max, lt_i64, enter_hook, begin_wait, announce}
use qenode.Clock.Worker.{
  Worker, starting, receiving, readying, granting, awaiting, reporting, answering, held, stopped,
  aborted,
}
use qenode.Clock.System.{
  System, Event, hook, announces, polls, wakes, loads, resumes, begins, receives, looks, grants,
  collects, answers, start_arrives, start_taken, quits, overlooks, drops, step, run, realize,
}
use qenode.Clock.Handshake.{Shape, IsOrdered, AllDeltas, deltas, phase}
use qenode.Clock.Handshake.Returning.{
  poll-IsOrdered, hook-IsOrdered, announce-IsOrdered, wake-IsOrdered, resume-IsOrdered,
  load-IsOrdered,
}
use qenode.Clock.Handshake.Granting.{
  begin-IsOrdered, receive-IsOrdered, look-IsOrdered, grant-IsOrdered, collect-IsOrdered,
  answer-IsOrdered, start-IsOrdered, take-IsOrdered,
}

-- Nothing times out, the big lock is not held, the manager is not dropped, also not between two
-- reads, and each delta is
-- neither zero nor a sentinel.
abbrev pub IsQuiet : Event → Type 0
IsQuiet (hook bql_held now) = bql_held ≡ false
IsQuiet (wakes expired) = expired ≡ false
IsQuiet (looks expired) = expired ≡ false
IsQuiet (receives o) = AllDeltas o
IsQuiet drops = false ≡ true
IsQuiet quits = false ≡ true
IsQuiet (overlooks expired) = false ≡ true
IsQuiet _ = Unit

abbrev pub AllQuiet : List Event → Type 0
AllQuiet [] = Unit
AllQuiet (e ∷ es) = IsQuiet e × AllQuiet es

step-IsOrdered : (e : Event) (s : System) → IsQuiet e → IsOrdered s → IsOrdered (step e s)
unfolding step
step-IsOrdered (hook bql_held now) s q h = rw q (hook-IsOrdered now s.vcpu s h)
step-IsOrdered announces s q h = announce-IsOrdered s.vcpu s h
step-IsOrdered (polls y e) s q h = poll-IsOrdered y e s.vcpu s h
step-IsOrdered (wakes expired) s q h = rw q (wake-IsOrdered s.vcpu s h)
step-IsOrdered loads s q h = load-IsOrdered s.vcpu s h
step-IsOrdered (resumes r) s q h = resume-IsOrdered r s.vcpu s h
step-IsOrdered begins s q h = begin-IsOrdered s.worker s h
step-IsOrdered (receives o) s q h = receive-IsOrdered o s.worker s q h
step-IsOrdered (looks expired) s q h = rw q (look-IsOrdered s.worker s h)
step-IsOrdered grants s q h = grant-IsOrdered s.worker s h
step-IsOrdered collects s q h = collect-IsOrdered s.worker s h
step-IsOrdered answers s q h = answer-IsOrdered s.worker s h
step-IsOrdered start_arrives s q h = start-IsOrdered s h
step-IsOrdered start_taken s q h = take-IsOrdered s.worker s h
step-IsOrdered drops s q h = absurd (ground (arith, q))
step-IsOrdered quits s q h = absurd (ground (arith, q))
step-IsOrdered (overlooks expired) s q h = absurd (ground (arith, q))

run-IsOrdered : (es : List Event) (s : System) → AllQuiet es → IsOrdered s → IsOrdered (run es s)
unfolding run
run-IsOrdered [] s q h = h
run-IsOrdered (e ∷ es) s q h = run-IsOrdered es (step e s) q.1 (step-IsOrdered e s q.0 h)

-- The first hook of the vCPU, at the time at which the device was realized
abbrev pub boot : ℕ → List Event
boot now = hook false now ∷ announces ∷ []

pub lt_i64_irrefl : (now : ℕ) → lt_i64 now now ≡ false
lt_i64_irrefl now = ground arith

pub boot-IsOrdered :
    (now : ℕ) (b : VirtmcuClockBackend)
    → (b.node_id == u32_max) ≡ false
    → b.shutdown ≡ false
    → IsOrdered (run (boot now) (realize now b))
unfolding run step realize enter_hook begin_wait announce
boot-IsOrdered now b named up =
    simp (named, lt_i64_irrefl now) (record { up = up; shape = (refl, refl, refl) })

-- The worker serves no quantum: it is between two requests, or about to answer.
abbrev pub between : Worker → Bool
between (readying req is_first) = false
between (granting req is_first) = false
between (awaiting req is_first) = false
between _ = true

-- The deltas that the vCPU has had are those of the requests, but for at most the last one.
abbrev pub IsInOrder : System → Type 0
IsInOrder s =
    (between s.worker ≡ true → s.returned ≡ deltas s.accepted)
    × ((s.returned ≡ deltas s.accepted)
        ⊎ ((delta : ℕ) × (deltas s.accepted ≡ s.returned ++ (delta ∷ []))))

Shape-InOrder :
    (st : QuantumState) (d : ℕ) (y : Bool) (v : Vcpu) (w : Worker) (acc ret : List ℕ)
    → Shape st d y v acc ret (phase w)
    → (between w ≡ true → ret ≡ acc) × ((ret ≡ acc) ⊎ ((delta : ℕ) × (acc ≡ ret ++ (delta ∷ []))))
Shape-InOrder st d y v (readying req first) acc ret h =
    (λ b. absurd (ground (arith, b)), inr (req.delta_ns, h.3.0))
Shape-InOrder st d y v (granting req first) acc ret h =
    (λ b. absurd (ground (arith, b)), inr (req.delta_ns, h.3.0))
Shape-InOrder st d y v (awaiting req first) acc ret (inl h) =
    (λ b. absurd (ground (arith, b)), inr (req.delta_ns, h.3.0))
Shape-InOrder st d y v (awaiting req first) acc ret (inr (inl h)) =
    (λ b. absurd (ground (arith, b)), inl (sym h.2))
Shape-InOrder st d y v (awaiting req first) acc ret (inr (inr h)) =
    (λ b. absurd (ground (arith, b)), inl (sym h.2))
Shape-InOrder st d y v starting acc ret h = (λ _. sym h.2, inl (sym h.2))
Shape-InOrder st d y v (receiving first) acc ret h = (λ _. sym h.2, inl (sym h.2))
Shape-InOrder st d y v (reporting req code) acc ret h = (λ _. sym h.2, inl (sym h.2))
Shape-InOrder st d y v (answering req code) acc ret h = (λ _. sym h.2, inl (sym h.2))
Shape-InOrder st d y v (held resp) acc ret h = (λ _. sym h.2, inl (sym h.2))
Shape-InOrder st d y v stopped acc ret h = (λ _. sym h.2, inl (sym h.2))
Shape-InOrder st d y v aborted acc ret h = (λ _. sym h.2, inl (sym h.2))

-- The vCPU of a node that is not in bypass reaches its first boundary before the worker begins;
-- then the accesses of both threads come in any order, and the guest may yield. While nothing times
-- out, the big lock is free, nothing shuts down, and each request is for more than zero and less
-- than the two sentinels, the vCPU leaves the wait with the deltas of the requests, each once and
-- in order: all of them whenever the worker is between two quanta or answers, and all but the last
-- one at most while it serves one.
pub run-InOrder :
    (now node_id stall_timeout session_watchdog_ms : ℕ) (coordinated : Bool) (es : List Event)
    → node_id < u32_max
    → AllQuiet es
    → IsInOrder (
        run es (
          run
            (boot now)
            (realize now (realize_backend node_id stall_timeout coordinated session_watchdog_ms))))
unfolding realize_backend clock_init_with_transport
run-InOrder now node_id stall_timeout session_watchdog_ms coordinated es named quiet =
    let b = realize_backend node_id stall_timeout coordinated session_watchdog_ms in
    let other : (node_id == u32_max) ≡ false = ground (arith, named) in
    let s = run es (run (boot now) (realize now b)) in
    let h =
      run-IsOrdered es (run (boot now) (realize now b)) quiet (boot-IsOrdered now b other refl) in
    Shape-InOrder s.backend.state s.backend.delta_ns s.device.is_yielding s.vcpu s.worker
      (deltas s.accepted) s.returned h.shape
