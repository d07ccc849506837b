-- ===== src/Tests/Clock.antt =====
-- Runs of the clock (hw/rust/backbone/clock).
use qenode.Base.{
  Bool, ◌+◌, ◌<◌, length, ℕ, ◌≤◌, ◌≡◌, refl, ◌⊎◌, true, false, none, some, List, [], ◌∷◌, arith,
}
use qenode.Clock.Backend.{
  VirtmcuClockBackend, realize_backend, clock_init_with_transport, stall_ms_for, watchdog_ms_for,
  watchdog_threshold_for,
}
use qenode.Clock.Vcpu.{
  enter_hook, begin_wait, announce, spin, block, wake, delta_of, advance, VirtmcuClock, Vcpu,
  resume, quantum_wait_stall_sentinel,
}
use qenode.Clock.Worker.{
  read_advance, advance_payload, read_ready, reply_payload, ClockAdvanceReq, ClockReadyResp, Worker,
  done_payload, begin_round, receive, miss, look_ready, look_done, finish_quantum, grant,
  collect_stall, response,
}
use qenode.Clock.System.{
  System, Event, hook, announces, polls, loads, resumes, begins, receives, looks, grants, collects,
  answers, start_arrives, start_taken, drops, step, run, realize, send_ready, take_start,
}
use qenode.Clock.Handshake.Run.{IsInOrder, boot, run-InOrder}
use qenode.Clock.Races.{
  arrives_at, early, overtaken, one_quantum, next_grant, grant_lost, grant_doubled,
}
use qenode.Clock.Boundary.{quanta, quanta-total, resume-boundary}
use qenode.Clock.Watchdog.{misses, run-misses}
use qenode.Clock.Shutdown.{is_out, has_ended, leave, wind_down, is_held, run-after_drop}
use qenode.Clock.Starts.{owed, count_starts, run-starts}
use qenode.Clock.Answers.{clock_wire}
use qenode.Coordinator.Server.Done.{parse_done}
use qenode.Coordinator.Server.Unpack.{Flatbuffers}

abbrev quantum : (delta number : ℕ) → ClockAdvanceReq
quantum delta number = record {
  delta_ns = delta;
  absolute_vtime_ns = 1000;
  quantum_number = number;
}

-- Two quanta of 500 and 250 ns, with a yield on the way; the second one is still being executed.
abbrev two_quanta : List Event
two_quanta =
    begins
    ∷ polls false true
    ∷ receives (some (quantum 500 1))
    ∷ polls true false
    ∷ resumes (arrives_at 1000)
    ∷ looks false
    ∷ hook false 1000
    ∷ grants
    ∷ announces
    ∷ polls false false
    ∷ loads
    ∷ looks false
    ∷ resumes (arrives_at 1500)
    ∷ hook false 1500
    ∷ announces
    ∷ looks false
    ∷ collects
    ∷ answers
    ∷ begins
    ∷ receives (some (quantum 250 2))
    ∷ looks false
    ∷ grants
    ∷ polls false false
    ∷ loads
    ∷ []

abbrev started : System
started = run (boot 1000) (realize 1000 (realize_backend 3 2000 false 0))

two_quanta_returned : (run two_quanta started).returned ≡ 500 ∷ 250 ∷ []
unfolding run step realize realize_backend clock_init_with_transport stall_ms_for watchdog_ms_for
    watchdog_threshold_for begin_round receive miss look_ready look_done finish_quantum grant
    collect_stall response send_ready enter_hook begin_wait announce spin block wake resume delta_of
    advance
two_quanta_returned = refl

run-InOrder_example : IsInOrder (run two_quanta started)
run-InOrder_example = run-InOrder 1000 3 2000 0 false two_quanta (omega arith) (
  tt,
  (
    tt,
    (
      (omega arith, omega arith),
      (
        tt,
        (
          tt,
          (
            refl,
            (
              refl,
              (
                tt,
                (
                  tt,
                  (
                    tt,
                    (
                      tt,
                      (
                        refl,
                        (
                          tt,
                          (
                            refl,
                            (
                              tt,
                              (
                                refl,
                                (
                                  tt,
                                  (
                                    tt,
                                    (
                                      tt,
                                      ((omega arith, omega arith), (refl, (tt, (tt, (tt, tt))))),
                                    ),
                                  ),
                                ),
                              ),
                            ),
                          ),
                        ),
                      ),
                    ),
                  ),
                ),
              ),
            ),
          ),
        ),
      ),
    ),
  ),
)

grant_lost_example :
    let s = run (early 1000 (quantum 500 1)) (realize 1000 (realize_backend 3 2000 false 0)) in
    (s.replies
      ≡ record { current_vtime_ns = 1000; n_frames = 0; error_code = 0; quantum_number = 1 } ∷ [])
    × (s.returned ≡ [])
grant_lost_example = grant_lost 1000 3 2000 0 (quantum 500 1) (omega arith) (omega arith)

grant_doubled_example :
    let s = run next_grant (
      run (one_quantum 1500) (
        run
          (overtaken 1000 (quantum 0 1) (quantum 500 2))
          (realize 1000 (realize_backend 3 2000 false 0)))) in
    (s.accepted ≡ quantum 0 1 ∷ quantum 500 2 ∷ []) × (s.returned ≡ 500 ∷ 500 ∷ [])
grant_doubled_example =
    grant_doubled 1000 3 2000 0 (quantum 0 1) (quantum 500 2) (omega arith) refl (omega arith)
      (omega arith)

abbrev device : VirtmcuClock
device = record {
  node_id = 3;
  next_quantum_ns = 1000;
  is_yielding = false;
  quantum_timer = some 1000;
  advanced = [];
}

-- The virtual time is already past the end of the quantum.
resume-boundary_example :
    let next = (resume (arrives_at 1700) 1000 500 device).next_quantum_ns in
    (1700 ≤ next) × (1500 ≤ next) × ((next ≡ 1700) ⊎ (next ≡ 1500))
resume-boundary_example =
    resume-boundary (arrives_at 1700) 1000 500 device (omega arith) (omega arith) (omega arith)

quanta-total_example :
    ((quanta (500 ∷ quantum_wait_stall_sentinel ∷ 250 ∷ []) device).next_quantum_ns ≡ 1750)
    × ((quanta (500 ∷ quantum_wait_stall_sentinel ∷ 250 ∷ []) device).advanced ≡ 500 ∷ 250 ∷ [])
quanta-total_example =
    quanta-total (500 ∷ quantum_wait_stall_sentinel ∷ 250 ∷ []) device
      (omega arith, (omega arith, (omega arith, tt))) (omega arith)

-- The default watchdog after the first quantum
abbrev listening : System
listening =
    let b = realize_backend 3 2000 false 0 in
    realize 1000 (record b { is_first_quantum = false; watchdog_threshold = 3 })

run-misses_example :
    ((j : ℕ) → j ≤ 3 → (run (misses j) listening).worker ≡ Worker.starting)
    × ((run (misses 4) listening).worker ≡ Worker.aborted)
unfolding realize realize_backend clock_init_with_transport
run-misses_example =
    run-misses 3 listening (record { at_head = refl; up = refl; first = refl }) refl (omega arith)

-- The drop finds the vCPU in the wait and a quantum under way.
abbrev dropped : System
dropped =
    let b = realize_backend 3 2000 false 0 in
    record (realize 1000 (record b { shutdown = true })) {
      vcpu = Vcpu.parked 1000;
      worker = Worker.awaiting (quantum 500 1) true;
    }

run-after_drop_example :
    (is_out (run (leave false false false) dropped).vcpu ≡ true)
    × (has_ended (run wind_down dropped).worker ≡ true)
unfolding realize realize_backend clock_init_with_transport
run-after_drop_example = run-after_drop false false false dropped refl refl refl

abbrev ready : ClockReadyResp
ready = record { current_vtime_ns = 1500; n_frames = 0; error_code = 0; quantum_number = 1 }

abbrev coordinated : VirtmcuClockBackend
unfolding realize_backend clock_init_with_transport
coordinated = realize_backend 3 2000 true 0

-- A request for no time is answered, and the node reports; two start signals come, of which one is
-- taken; the second request is answered after the drop.
abbrev two_starts : List Event
two_starts =
    hook false 1000
    ∷ announces
    ∷ begins
    ∷ receives (some (quantum 0 1))
    ∷ looks false
    ∷ grants
    ∷ collects
    ∷ answers
    ∷ start_arrives
    ∷ start_arrives
    ∷ start_taken
    ∷ begins
    ∷ receives (some (quantum 0 2))
    ∷ drops
    ∷ looks false
    ∷ collects
    ∷ answers
    ∷ []

run-starts_example :
    let s = run two_starts (realize 1000 coordinated) in
    (length s.replies + s.starts ≡ count_starts two_starts)
    × (length s.dones ≡ length s.replies + owed s.worker)
    × (count_starts two_starts < length s.dones → is_held s.worker ≡ true)
unfolding realize_backend clock_init_with_transport
run-starts_example = run-starts 1000 coordinated two_starts refl

-- A held worker goes on without a sender, and waits with one, also after the drop.
abbrev waiting_for_start : (start_sub : Bool) → System
waiting_for_start sub = record (realize 1000 coordinated) {
  worker = Worker.held ready;
  start_sub = sub;
}

no_sender : (run (drops ∷ start_taken ∷ []) (waiting_for_start false)).replies ≡ ready ∷ []
unfolding run step realize take_start
no_sender = refl

no_start : (run (drops ∷ start_taken ∷ []) (waiting_for_start true)).worker ≡ Worker.held ready
unfolding run step realize take_start
no_start = refl

-- A start signal that comes before the worker waits for it is not lost.
early_start :
    (run
      (start_arrives ∷ answers ∷ start_taken ∷ [])
      (record (realize 1000 coordinated) { worker = Worker.answering (quantum 0 1) 0 })).worker
    ≡ Worker.starting
unfolding run step realize take_start send_ready response realize_backend clock_init_with_transport
early_start = refl

-- No FlatBuffers at all
abbrev no_flatbuffers : Flatbuffers
no_flatbuffers = record {
  coord_done_req = λ _. none;
  lin_frame = λ _. none;
  rf802154_header = λ _. none;
  finish_header = λ _ _ _ _ _. [];
}

clock_wire_example :
    (read_advance (advance_payload 500 1000)
      ≡ some (record { delta_ns = 500; absolute_vtime_ns = 1000; quantum_number = 0 }))
    × (read_ready (reply_payload ready) ≡ some 1500)
    × (parse_done no_flatbuffers (done_payload ready) ≡ (1, 1500, []))
clock_wire_example =
    clock_wire no_flatbuffers 500 1000 ready (omega arith) (omega arith) (omega arith) (omega arith)
