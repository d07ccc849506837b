-- ===== src/Clock/Races.antt =====
-- Two orders of the accesses: in one a quantum is lost, in the other it is granted twice.
use native.Mathlib.Nat.{mod-eq_of_lt}
use qenode.Base.{
  ℕ, ◌+◌, ◌%◌, ◌^◌, ◌<◌, ◌≡◌, refl, true, false, some, List, [], ◌∷◌, ◌++◌, arith, ltb, lt→ltb,
  ◌==◌, ap, ◌∙◌,
}
use qenode.Clock.Backend.{
  QuantumState, VirtmcuClockBackend, realize_backend, clock_init_with_transport,
}
use qenode.Clock.Vcpu.{
  advance, Vcpu, Readings, u32_max, enter_hook, begin_wait, announce, spin, block, resume,
  quantum_wait_yield_sentinel, quantum_wait_stall_sentinel, delta_of,
}
use qenode.Clock.Worker.{
  Worker, ClockAdvanceReq, begin_round, receive, look_ready, grant, look_done, collect_stall,
  response, finish_quantum,
}
use qenode.Clock.System.{
  System, Event, hook, announces, polls, loads, resumes, begins, receives, looks, grants, collects,
  answers, run, step, realize, send_ready,
}
use qenode.Clock.Handshake.Run.{boot, lt_i64_irrefl}

-- The worker takes a request and grants it at once, in a state that says `Waiting`.
abbrev pub served : ClockAdvanceReq → List Event
served req = begins ∷ receives (some req) ∷ looks false ∷ grants ∷ []

abbrev pub replied : List Event
replied = collects ∷ answers ∷ []

-- The request is granted before the vCPU has reached its first boundary.
abbrev pub early : (now : ℕ) → ClockAdvanceReq → List Event
early now req = served req ++ boot now ++ (looks false ∷ replied)

-- One order of the accesses, in a node that is not coordinated: the worker takes a request for some
-- time and grants it before the first hook of the vCPU; then the vCPU says that it has reached its
-- first boundary, and the worker looks before the vCPU does. The request is answered as done, at the
-- virtual time at which the vCPU began to wait, although the vCPU has not left the wait.
pub grant_lost :
    (now node_id stall_timeout session_watchdog_ms : ℕ) (req : ClockAdvanceReq)
    → node_id < u32_max
    → 0 < req.delta_ns
    → let s =
        run
          (early now req)
          (realize now (realize_backend node_id stall_timeout false session_watchdog_ms)) in
      (s.replies
        ≡ record {
          current_vtime_ns = now;
          n_frames = 0;
          error_code = 0;
          quantum_number = req.quantum_number;
        }
          ∷ [])
      × (s.returned ≡ [])
unfolding run step realize realize_backend clock_init_with_transport begin_round receive look_ready
    grant look_done finish_quantum collect_stall response send_ready enter_hook begin_wait announce
grant_lost now node_id stall_timeout session_watchdog_ms req named fits =
    let other : (node_id == u32_max) ≡ false = ground (arith, named) in
    let positive : ltb 0 req.delta_ns ≡ true = lt→ltb 0 req.delta_ns fits in
    simp (other, positive, lt_i64_irrefl now) (refl, refl)

-- The clock stands still while the vCPU waits, and it then runs to the boundary.
abbrev pub arrives_at : ℕ → Readings
arrives_at boundary = record {
  now_after_block = boundary;
  now_final = boundary;
  icount_enabled = true;
  halted = false;
}

-- A request for no time, answered before the vCPU has woken up; the next request then finds the
-- grant of the first one still standing.
abbrev pub overtaken : (now : ℕ) (idle req : ClockAdvanceReq) → List Event
overtaken now idle req = boot now ++ served idle ++ replied ++ (begins ∷ receives (some req) ∷ [])

abbrev pub one_quantum : (boundary : ℕ) → List Event
one_quantum boundary =
    polls false false ∷ loads ∷ resumes (arrives_at boundary) ∷ hook false boundary ∷ announces ∷ []

abbrev pub next_grant : List Event
next_grant = looks false ∷ grants ∷ polls false false ∷ loads ∷ []

module _ (now node_id stall_timeout session_watchdog_ms : ℕ) (idle req : ClockAdvanceReq) where
  abbrev backend : VirtmcuClockBackend
  backend = realize_backend node_id stall_timeout false session_watchdog_ms

  -- The worker waits for the vCPU, which has the old grant and the new delta before it.
  abbrev mixed : VirtmcuClockBackend → System
  mixed b = record (realize now b) {
    backend = record b {
      consecutive_timeouts = 0;
      state = QuantumState.executing;
      delta_ns = req.delta_ns;
      absolute_vtime_ns = req.absolute_vtime_ns;
      vtime_ns = now;
      is_first_quantum = false;
      pending_stall = false;
    };
    vcpu = Vcpu.spinning now;
    worker = Worker.readying req false;
    heartbeats = now ∷ [];
    replies =
        record {
          current_vtime_ns = now;
          n_frames = 0;
          error_code = 0;
          quantum_number = idle.quantum_number;
        }
        ∷ [];
    accepted = idle ∷ req ∷ [];
  }

  run-overtaken :
      node_id < u32_max
      → idle.delta_ns ≡ 0
      → run (overtaken now idle req) (realize now backend) ≡ mixed backend
  unfolding run step realize realize_backend clock_init_with_transport begin_round receive
      look_ready grant look_done finish_quantum collect_stall response send_ready enter_hook
      begin_wait announce
  run-overtaken named none_ =
      let other : (node_id == u32_max) ≡ false = ground (arith, named) in
      let zero : ltb 0 idle.delta_ns ≡ false = rw none_ refl in
      simp (other, zero, lt_i64_irrefl now) refl

  abbrev boundary : ℕ
  boundary = now + req.delta_ns

  -- The vCPU is back from the quantum that was not granted yet.
  abbrev back : VirtmcuClockBackend → System
  back b = record (mixed b) {
    device = record (mixed b).device {
      next_quantum_ns = boundary;
      quantum_timer = some boundary;
      advanced = [];
    };
    backend = record (mixed b).backend { state = QuantumState.waiting; vtime_ns = boundary };
    vcpu = Vcpu.spinning boundary;
    returned = req.delta_ns ∷ [];
  }

  run-one_quantum :
      (b : VirtmcuClockBackend)
      → b.node_id < u32_max
      → 0 < req.delta_ns
      → now + req.delta_ns < 2 ^ 63
      → run (one_quantum boundary) (mixed b) ≡ back b
  unfolding run step realize enter_hook begin_wait announce spin block resume delta_of advance
  run-one_quantum b named fits room =
      let other : (b.node_id == u32_max) ≡ false = ground (arith, named) in
      let no_stall : (req.delta_ns == quantum_wait_stall_sentinel) ≡ false = ground (arith, room) in
      let no_yield : (req.delta_ns == quantum_wait_yield_sentinel) ≡ false = ground (arith, room) in
      let there : boundary % 2 ^ 64 ≡ boundary = mod-eq_of_lt (omega (arith, room)) in
      let positive : ltb 0 req.delta_ns ≡ true = lt→ltb 0 req.delta_ns fits in
      simp (other, no_stall, no_yield, there, positive, lt_i64_irrefl boundary) refl

  run-next_grant :
      (b : VirtmcuClockBackend)
      → b.shutdown ≡ false
      → 0 < req.delta_ns
      → (run next_grant (back b)).returned ≡ req.delta_ns ∷ req.delta_ns ∷ []
  unfolding run step realize look_ready look_done grant spin block
  run-next_grant b up fits =
      let positive : ltb 0 req.delta_ns ≡ true = lt→ltb 0 req.delta_ns fits in
      simp (up, positive) refl

  run-next_grant-accepted :
      (b : VirtmcuClockBackend)
      → b.shutdown ≡ false
      → 0 < req.delta_ns
      → (run next_grant (back b)).accepted ≡ idle ∷ req ∷ []
  unfolding run step realize look_ready look_done grant spin block
  run-next_grant-accepted b up fits =
      let positive : ltb 0 req.delta_ns ≡ true = lt→ltb 0 req.delta_ns fits in
      simp (up, positive) refl

  -- A request for no time is answered at once, and the next one is taken before the vCPU has woken
  -- up. The vCPU then finds the grant of the first request with the delta of the second, runs it,
  -- and is granted the same delta again: two requests, for zero and for some time, and that time
  -- is returned twice.
  pub grant_doubled :
      node_id < u32_max
      → idle.delta_ns ≡ 0
      → 0 < req.delta_ns
      → now + req.delta_ns < 2 ^ 63
      → let s =
          run next_grant
            (run (one_quantum boundary) (run (overtaken now idle req) (realize now backend))) in
        (s.accepted ≡ idle ∷ req ∷ []) × (s.returned ≡ req.delta_ns ∷ req.delta_ns ∷ [])
  unfolding realize_backend clock_init_with_transport
  grant_doubled named none_ fits room =
      let there : run (one_quantum boundary) (run (overtaken now idle req) (realize now backend))
          ≡ back backend =
        ap (run (one_quantum boundary)) (run-overtaken named none_)
        ∙ run-one_quantum backend named fits room in
      (
        ap (λ s. (run next_grant s).accepted) there ∙ run-next_grant-accepted backend refl fits,
        ap (λ s. (run next_grant s).returned) there ∙ run-next_grant backend refl fits,
      )
