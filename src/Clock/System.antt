-- ===== src/Clock/System.antt =====
-- hw/rust/backbone/clock/src/lib.rs: both threads over one backend, interleaved in any order, and
-- the drop of the manager. A test of a waiting thread that reads both the state and the flag of the
-- shutdown is one event; that the flag is raised between the two reads is an event of its own.
use qenode.Base.{
  ℕ, zero, suc, if◌then◌else◌, Bool, true, false, Option, none, some, List, [], ◌∷◌, ◌++◌,
}
use qenode.Base.Bytes.{Text}
use qenode.Clock.Backend.{VirtmcuClockBackend}
use qenode.Clock.Vcpu.{
  VirtmcuClock, Vcpu, running, entering, spinning, blocked, parked, loading, resuming, enter_hook,
  announce, spin, block, wake, Readings, resume,
}
use qenode.Clock.Worker.{
  ClockAdvanceReq, ClockReadyResp, Worker, starting, receiving, readying, granting, awaiting,
  reporting, answering, held, begin_round, receive, look_ready, grant, look_done, collect_stall,
  response, done_payload,
}

-- `accepted` and `returned` only record: the requests that the worker has taken, and the deltas
-- with which the vCPU has left the wait.
pub record System : Type 0 where
  pub device : VirtmcuClock
  pub backend : VirtmcuClockBackend
  pub vcpu : Vcpu
  pub worker : Worker
  pub starts : ℕ  -- what lies in the channel of the start signals, which is unbounded
  pub start_sub : Bool  -- whether their subscription, which owns the only sender, was made
  pub heartbeats : List ℕ
  pub dones : List Text
  pub replies : List ClockReadyResp
  pub accepted : List ClockAdvanceReq
  pub returned : List ℕ

-- One event of one thread, with what the world answers there.
pub data Event : Type 0 where
  hook : (bql_held : Bool) (now : ℕ) → Event
  announces : Event
  polls : (should_yield spun_enough : Bool) → Event
  quits : Event
  wakes : (expired : Bool) → Event
  loads : Event
  resumes : Readings → Event
  begins : Event
  receives : Option ClockAdvanceReq → Event
  looks : (expired : Bool) → Event
  overlooks : (expired : Bool) → Event
  grants : Event
  collects : Event
  answers : Event
  start_arrives : Event
  start_taken : Event
  drops : Event

abbrev pub set_vcpu : System → Vcpu × VirtmcuClockBackend → System
set_vcpu s (p, b) = record s { vcpu = p; backend = b }

abbrev pub set_worker : System → Worker × VirtmcuClockBackend → System
set_worker s (w, b) = record s { worker = w; backend = b }

abbrev pub on_hook : (bql_held : Bool) (now : ℕ) → Vcpu → System → System
unfolding enter_hook
on_hook bql_held now running s = set_vcpu s (enter_hook bql_held now s.device s.backend)
on_hook bql_held now _ s = s

abbrev pub on_announce : Vcpu → System → System
unfolding announce
on_announce (entering now) s = record s {
  vcpu = Vcpu.spinning now;
  backend = announce s.device.is_yielding s.backend;
}
on_announce _ s = s

abbrev pub on_poll : (should_yield spun_enough : Bool) → Vcpu → System → System
unfolding spin block
on_poll should_yield spun_enough (spinning now) s = record s {
  vcpu = spin should_yield spun_enough now s.backend.shutdown s.backend.state;
}
on_poll should_yield spun_enough (blocked now) s = record s {
  vcpu = block should_yield now s.backend.shutdown s.backend.state;
}
on_poll should_yield spun_enough _ s = s

-- The vCPU has read that it must wait; then the flag is raised, and only after that it reads the flag,
-- whatever the state is by now.
abbrev pub on_quit : Vcpu → System → System
on_quit (spinning now) s = record s {
  vcpu = if s.backend.shutdown then Vcpu.resuming now 0 else Vcpu.spinning now;
}
on_quit (blocked now) s = record s {
  vcpu = if s.backend.shutdown then Vcpu.resuming now 0 else Vcpu.blocked now;
}
on_quit _ s = s

abbrev pub on_wake : (expired : Bool) → Vcpu → System → System
unfolding wake
on_wake expired (parked now) s = set_vcpu s (wake expired now s.backend)
on_wake expired _ s = s

-- `backend.delta_ns.load`
abbrev pub on_load : Vcpu → System → System
on_load (loading now) s = record s {
  vcpu = Vcpu.resuming now s.backend.delta_ns;
  returned = s.returned ++ (s.backend.delta_ns ∷ []);
}
on_load _ s = s

abbrev pub on_resume : Readings → Vcpu → System → System
unfolding resume
on_resume r (resuming now raw_delta) s = record s {
  vcpu = Vcpu.running;
  device = resume r now raw_delta s.device;
}
on_resume r _ s = s

abbrev pub on_begin : Worker → System → System
unfolding begin_round
on_begin starting s = record s { worker = begin_round s.backend }
on_begin _ s = s

-- `recv_advance` returns.
abbrev pub after_receive : Option ClockAdvanceReq → (is_first : Bool) → System → System
unfolding receive
after_receive none is_first s = set_worker s (receive none is_first s.backend)
after_receive (some req) is_first s =
    record (set_worker s (receive (some req) is_first s.backend)) {
      accepted = s.accepted ++ (req ∷ []);
    }

abbrev pub on_receive : Option ClockAdvanceReq → Worker → System → System
on_receive o (receiving is_first) s = after_receive o is_first s
on_receive o _ s = s

abbrev pub on_look : (expired : Bool) → Worker → System → System
unfolding look_ready look_done
on_look expired (readying req is_first) s = record s {
  worker = look_ready expired s.backend.shutdown s.backend.state req is_first;
}
on_look expired (awaiting req is_first) s =
    set_worker s (look_done expired s.backend.shutdown s.backend.state req is_first s.backend)
on_look expired _ s = s

-- The worker has read the flag before it was raised, and reads the state after that.
abbrev pub on_overlook : (expired : Bool) → Worker → System → System
unfolding look_ready look_done
on_overlook expired (readying req is_first) s = record s {
  worker = look_ready expired false s.backend.state req is_first;
}
on_overlook expired (awaiting req is_first) s =
    set_worker s (look_done expired false s.backend.state req is_first s.backend)
on_overlook expired _ s = s

abbrev pub on_grant : Worker → System → System
unfolding grant
on_grant (granting req is_first) s = set_worker s (grant req is_first s.backend)
on_grant _ s = s

abbrev pub on_collect : Worker → System → System
unfolding collect_stall
on_collect (reporting req error_code) s = set_worker s (collect_stall req error_code s.backend)
on_collect _ s = s

-- The reply, and the next round
abbrev pub reply : ClockReadyResp → System → System
reply resp s = record s { worker = Worker.starting; replies = s.replies ++ (resp ∷ []) }

-- `ZenohClockResponder::send_ready`: a coordinated node waits for the start.
unfoldable pub send_ready : (is_coordinated : Bool) → ClockReadyResp → System → System
unfolding done_payload
send_ready true resp s = record s {
  worker = Worker.held resp;
  dones = s.dones ++ (done_payload resp ∷ []);
}
send_ready false resp s = reply resp s

abbrev pub on_answer : Worker → System → System
unfolding response send_ready
on_answer (answering req error_code) s =
    send_ready s.backend.is_coordinated (response req error_code s.backend)
      (record s { heartbeats = s.heartbeats ++ (s.backend.vtime_ns ∷ []) })
on_answer _ s = s

-- The callback of the subscription sends.
abbrev pub on_start : System → System
on_start s = if s.start_sub then record s { starts = suc s.starts } else s

-- `start_rx.recv()`: it takes a signal that lies in the channel. On an empty channel it waits for
-- one while there is a sender, and otherwise fails, which is logged; the reply follows both.
unfoldable pub take_start : (starts : ℕ) (start_sub : Bool) → ClockReadyResp → System → System
take_start (suc n) start_sub resp s = reply resp (record s { starts = n })
take_start zero true resp s = s
take_start zero false resp s = reply resp s

abbrev pub on_take : Worker → System → System
unfolding take_start
on_take (held resp) s = take_start s.starts s.start_sub resp s
on_take _ s = s

-- `ClockManager::drop` raises the flag; the threads then see it.
unfoldable pub step : Event → System → System
step (hook bql_held now) s = on_hook bql_held now s.vcpu s
step announces s = on_announce s.vcpu s
step (polls should_yield spun_enough) s = on_poll should_yield spun_enough s.vcpu s
step quits s = on_quit s.vcpu s
step (wakes expired) s = on_wake expired s.vcpu s
step loads s = on_load s.vcpu s
step (resumes r) s = on_resume r s.vcpu s
step begins s = on_begin s.worker s
step (receives o) s = on_receive o s.worker s
step (looks expired) s = on_look expired s.worker s
step (overlooks expired) s = on_overlook expired s.worker s
step grants s = on_grant s.worker s
step collects s = on_collect s.worker s
step answers s = on_answer s.worker s
step start_arrives s = on_start s
step start_taken s = on_take s.worker s
step drops s = record s { backend = record s.backend { shutdown = true } }

unfoldable pub run : List Event → System → System
unfolding step
run [] s = s
run (e ∷ es) s = run es (step e s)

-- The device as `clock_realize` leaves it, at the virtual time `now`; the subscription to the start
-- signals was made, and stays for as long as the worker runs, which shares the backend that owns it.
unfoldable pub realize : (now : ℕ) → VirtmcuClockBackend → System
realize now b = record {
  device = record {
    node_id = b.node_id;
    next_quantum_ns = now;
    is_yielding = false;
    quantum_timer = some now;
    advanced = [];
  };
  backend = b;
  vcpu = Vcpu.running;
  worker = Worker.starting;
  starts = 0;
  start_sub = true;
  heartbeats = [];
  dones = [];
  replies = [];
  accepted = [];
  returned = [];
}
