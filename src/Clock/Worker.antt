-- ===== src/Clock/Worker.antt =====
-- hw/rust/backbone/clock/src/lib.rs: the worker thread, `clock_worker_loop` and
-- `wait_for_ready_and_execute`, an access to the shared state at a time, and the answer to the time
-- authority, `ZenohClockResponder::send_ready`. What the transport receives and what the wall clock
-- says of a time-out are arguments.
use mathlib.Core.Option
use qenode.Api.Structs.{
  unpack_slice_of, size_of_clock_advance_req, clock_advance_req_delta_ns,
  clock_advance_req_absolute_vtime_ns, clock_advance_req_quantum_number, new_clock_ready_resp,
  new_clock_advance_req, size_of_clock_ready_resp, clock_ready_resp_current_vtime_ns,
}
use qenode.Base.Do.{◌>>=◌}
use qenode.Base.{
  length, ◌==◌, ℕ, ◌+◌, ◌%◌, ◌^◌, Bool, true, false, Option, none, some, ◌++◌, ltb, if◌then◌else◌,
}
use qenode.Base.Bytes.{Text, le_bytes}
use qenode.Clock.Backend.{QuantumState, executing, waiting, VirtmcuClockBackend}

-- A quantum that the time authority asks for, and the answer
pub record ClockAdvanceReq : Type 0 where
  pub delta_ns : ℕ  -- u64
  pub absolute_vtime_ns : ℕ  -- u64
  pub quantum_number : ℕ  -- u64

pub record ClockReadyResp : Type 0 where
  pub current_vtime_ns : ℕ  -- u64
  pub n_frames : ℕ  -- u32
  pub error_code : ℕ  -- u32
  pub quantum_number : ℕ  -- u64

abbrev pub clock_error_ok : ℕ
clock_error_ok = 0

abbrev pub clock_error_stall : ℕ
clock_error_stall = 1

-- Where the worker stands, with its locals.
pub data Worker : Type 0 where
  starting : Worker  -- the head of the loop
  receiving : (is_first : Bool) → Worker
  readying : (req : ClockAdvanceReq) (is_first : Bool) → Worker  -- until the vCPU is there
  granting : (req : ClockAdvanceReq) (is_first : Bool) → Worker  -- before the compare-exchange
  awaiting : (req : ClockAdvanceReq) (is_first : Bool) → Worker  -- until the vCPU is back
  reporting : (req : ClockAdvanceReq) (error_code : ℕ) → Worker
  answering : (req : ClockAdvanceReq) (error_code : ℕ) → Worker
  held : (resp : ClockReadyResp) → Worker  -- in `start_rx.recv`
  stopped : Worker
  aborted : Worker  -- `abort_fn` was called

unfoldable pub begin_round : VirtmcuClockBackend → Worker
begin_round b = if b.shutdown then Worker.stopped else Worker.receiving b.is_first_quantum

-- `recv_advance` has given up.
unfoldable pub miss : (is_first : Bool) → VirtmcuClockBackend → Worker × VirtmcuClockBackend
miss true b = (if b.shutdown then Worker.stopped else Worker.starting, b)
miss false b =
    let misses = (b.consecutive_timeouts + 1) % 2 ^ 64 in
    if b.shutdown then (Worker.stopped, b) else (
      if ltb b.watchdog_threshold misses then Worker.aborted else Worker.starting,
      record b { consecutive_timeouts = misses },
    )

unfoldable pub receive :
    Option ClockAdvanceReq → (is_first : Bool) → VirtmcuClockBackend → Worker × VirtmcuClockBackend
unfolding miss
receive (some req) is_first b = (
  Worker.readying req is_first,
  record b {
    consecutive_timeouts = 0;
    delta_ns = req.delta_ns;
    absolute_vtime_ns = req.absolute_vtime_ns;
  },
)
receive none is_first b = miss is_first b

-- One round of the first loop of `wait_for_ready_and_execute`, where the state was `state`
unfoldable pub look_ready :
    (expired shutdown : Bool) → QuantumState → (req : ClockAdvanceReq) (is_first : Bool) → Worker
look_ready expired true state req is_first = Worker.reporting req clock_error_ok
look_ready expired false waiting req is_first = Worker.granting req is_first
look_ready expired false executing req is_first =
    if expired then Worker.reporting req clock_error_stall else Worker.readying req is_first

-- The end of `wait_for_ready_and_execute`
unfoldable pub finish_quantum : (is_first : Bool) → VirtmcuClockBackend → VirtmcuClockBackend
finish_quantum true b = record b { is_first_quantum = false }
finish_quantum false b = b

-- The compare-exchange; one that fails is only logged.
unfoldable pub grant :
    ClockAdvanceReq → (is_first : Bool) → VirtmcuClockBackend → Worker × VirtmcuClockBackend
unfolding finish_quantum
grant req is_first b =
    let granted = record b { state = QuantumState.executing } in
    if ltb 0 req.delta_ns
    then (Worker.awaiting req is_first, granted)
    else (Worker.reporting req clock_error_ok, finish_quantum is_first granted)

-- One round of the second loop, where the state was `state`
unfoldable pub look_done :
    (expired shutdown : Bool)
    → QuantumState
    → (req : ClockAdvanceReq) (is_first : Bool) → VirtmcuClockBackend
    → Worker × VirtmcuClockBackend
unfolding finish_quantum
look_done expired true state req is_first b = (Worker.reporting req clock_error_ok, b)
look_done expired false waiting req is_first b =
    (Worker.reporting req clock_error_ok, finish_quantum is_first b)
look_done expired false executing req is_first b =
    (if expired then Worker.reporting req clock_error_stall else Worker.awaiting req is_first, b)

-- `pending_stall.swap(false)`
unfoldable pub collect_stall :
    (req : ClockAdvanceReq) (error_code : ℕ) → VirtmcuClockBackend → Worker × VirtmcuClockBackend
collect_stall req error_code b = (
  Worker.answering req (if b.pending_stall then clock_error_stall else error_code),
  record b { pending_stall = false },
)

unfoldable pub response :
    (req : ClockAdvanceReq) (error_code : ℕ) → VirtmcuClockBackend → ClockReadyResp
response req error_code b = record {
  current_vtime_ns = b.vtime_ns;
  n_frames = 0;
  error_code = error_code;
  quantum_number = req.quantum_number;
}

-- The `done` payload for the coordinator
unfoldable pub done_payload : ClockReadyResp → Text
done_payload resp = le_bytes 8 resp.quantum_number ++ le_bytes 8 resp.current_vtime_ns

-- `recv_advance` on the payload of a query
unfoldable pub read_advance : Text → Option ClockAdvanceReq
read_advance payload = do
  bytes ← unpack_slice_of size_of_clock_advance_req payload
  some (record {
    delta_ns = clock_advance_req_delta_ns bytes;
    absolute_vtime_ns = clock_advance_req_absolute_vtime_ns bytes;
    quantum_number = clock_advance_req_quantum_number bytes;
  })

-- The payload of the reply, `resp.pack()`
unfoldable pub reply_payload : ClockReadyResp → Text
reply_payload resp =
    new_clock_ready_resp resp.current_vtime_ns resp.n_frames resp.error_code resp.quantum_number

-- The replayer's side (tools/cyber_bridge/src/bin/resd_replay.rs): the payload of a request, and the
-- reading of a reply, which has to be of the exact size
unfoldable pub advance_payload : (delta_ns current_vtime_ns : ℕ) → Text
advance_payload delta_ns current_vtime_ns = new_clock_advance_req delta_ns current_vtime_ns 0

unfoldable pub read_ready : Text → Option ℕ
read_ready payload =
    if length payload == size_of_clock_ready_resp
    then Option.map clock_ready_resp_current_vtime_ns
        (unpack_slice_of size_of_clock_ready_resp payload)
    else none
