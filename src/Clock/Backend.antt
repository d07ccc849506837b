-- ===== src/Clock/Backend.antt =====
-- hw/rust/backbone/clock/src/lib.rs: the state that the vCPU and the worker share, and how it
-- starts. The wall-clock profile of the big lock is left out.
use qenode.Base.{ℕ, ◌*◌, ◌/◌, ◌%◌, ◌^◌, Bool, true, false, ◌&&◌, ltb, ◌==◌, if◌then◌else◌}

pub data QuantumState : Type 0 where
  executing : QuantumState
  waiting : QuantumState

-- `From<u8> for QuantumState` and the cast back
unfoldable pub from_u8 : ℕ → QuantumState
from_u8 v = if v == 0 then QuantumState.executing else QuantumState.waiting

unfoldable pub as_u8 : QuantumState → ℕ
as_u8 executing = 0
as_u8 waiting = 1

pub record VirtmcuClockBackend : Type 0 where
  pub node_id : ℕ  -- u32
  pub stall_timeout_ms : ℕ  -- u32
  pub is_coordinated : Bool
  pub watchdog_threshold : ℕ  -- u64
  pub consecutive_timeouts : ℕ  -- u64
  pub state : QuantumState
  pub delta_ns : ℕ  -- u64
  pub vtime_ns : ℕ  -- u64
  pub absolute_vtime_ns : ℕ  -- u64
  pub stall_count : ℕ  -- u64
  pub is_first_quantum : Bool
  pub pending_stall : Bool
  pub shutdown : Bool

-- `NORMAL_QUANTUM_TIMEOUT.as_millis()`
abbrev pub normal_quantum_timeout_ms : ℕ
normal_quantum_timeout_ms = 10000

unfoldable pub watchdog_threshold_for : (session_watchdog_ms stall_timeout_ms : ℕ) → ℕ
watchdog_threshold_for session_watchdog_ms stall_timeout_ms =
    if ltb 0 session_watchdog_ms && ltb 0 stall_timeout_ms
    then session_watchdog_ms / stall_timeout_ms
    else 3

unfoldable pub clock_init_with_transport :
    (node_id stall_timeout_ms : ℕ) (is_coordinated : Bool) (session_watchdog_ms : ℕ)
    → VirtmcuClockBackend
unfolding watchdog_threshold_for
clock_init_with_transport node_id stall_timeout_ms is_coordinated session_watchdog_ms = record {
  node_id = node_id;
  stall_timeout_ms = stall_timeout_ms;
  is_coordinated = is_coordinated;
  watchdog_threshold = watchdog_threshold_for session_watchdog_ms stall_timeout_ms;
  consecutive_timeouts = 0;
  state = QuantumState.waiting;
  delta_ns = 0;
  vtime_ns = 0;
  absolute_vtime_ns = 0;
  stall_count = 0;
  is_first_quantum = true;
  pending_stall = false;
  shutdown = false;
}

-- The stall timeout of a device whose property is not set
unfoldable pub stall_ms_for : (stall_timeout : ℕ) → ℕ
stall_ms_for stall_timeout = if stall_timeout == 0 then normal_quantum_timeout_ms else stall_timeout

-- `stall_ms * 3` on u32, for a device whose session watchdog is not set
unfoldable pub watchdog_ms_for : (session_watchdog_ms stall_ms : ℕ) → ℕ
watchdog_ms_for session_watchdog_ms stall_ms =
    if ltb 0 session_watchdog_ms then session_watchdog_ms else stall_ms * 3 % 2 ^ 32

-- The backend that `clock_realize` makes from the properties of the device
unfoldable pub realize_backend :
    (node_id stall_timeout : ℕ) (coordinated : Bool) (session_watchdog_ms : ℕ) → VirtmcuClockBackend
unfolding stall_ms_for watchdog_ms_for clock_init_with_transport
realize_backend node_id stall_timeout coordinated session_watchdog_ms =
    let stall_ms = stall_ms_for stall_timeout in
    clock_init_with_transport node_id stall_ms coordinated
      (watchdog_ms_for session_watchdog_ms stall_ms)
