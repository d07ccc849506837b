-- ===== src/Clock/Vcpu.antt =====
-- hw/rust/backbone/clock/src/lib.rs: the vCPU thread, `clock_cpu_halt_cb_internal` and
-- `clock_quantum_wait_internal`, an access to the shared state at a time. What QEMU answers (the
-- virtual clock, the big lock, `virtmcu_vcpu_should_yield`, icount) and what the wall clock says of
-- a time-out are arguments.
use mathlib.Core.Option
use qenode.Base.{
  ℕ, ◌+◌, ◌-◌, ◌%◌, ◌^◌, Bool, true, false, ◌&&◌, ◌||◌, Option, List, [], ◌∷◌, ◌++◌, ltb, ◌==◌,
  if◌then◌else◌,
}
use qenode.Clock.Backend.{QuantumState, executing, waiting, VirtmcuClockBackend}

-- The device. An i64 is its 64 bits.
pub record VirtmcuClock : Type 0 where
  pub node_id : ℕ  -- u32
  pub next_quantum_ns : ℕ  -- i64
  pub is_yielding : Bool
  pub quantum_timer : Option ℕ  -- the time for which it is armed; none is the null pointer
  pub advanced : List ℕ  -- the arguments of `icount_advance`

-- Where the vCPU thread stands, with its locals.
pub data Vcpu : Type 0 where
  running : Vcpu
  entering : (now : ℕ) → Vcpu  -- the time is stored
  spinning : (now : ℕ) → Vcpu
  blocked : (now : ℕ) → Vcpu  -- the head of the second loop
  parked : (now : ℕ) → Vcpu  -- in `wait_timeout`
  loading : (now : ℕ) → Vcpu  -- before `delta_ns.load`
  resuming : (now raw_delta : ℕ) → Vcpu  -- the wait has returned

abbrev pub u32_max : ℕ
u32_max = 2 ^ 32 - 1

abbrev pub quantum_wait_stall_sentinel : ℕ
quantum_wait_stall_sentinel = 2 ^ 64 - 1

abbrev pub quantum_wait_yield_sentinel : ℕ
quantum_wait_yield_sentinel = 2 ^ 64 - 2

-- `<` on i64
abbrev pub lt_i64 : ℕ → ℕ → Bool
lt_i64 a b = ltb ((a + 2 ^ 63) % 2 ^ 64) ((b + 2 ^ 63) % 2 ^ 64)

-- `clock_quantum_wait_internal` up to the store of the time
unfoldable pub begin_wait :
    (bql_held : Bool) (now : ℕ) → VirtmcuClockBackend → Vcpu × VirtmcuClockBackend
begin_wait bql_held now b =
    if bql_held
    then (Vcpu.resuming now quantum_wait_stall_sentinel, b)
    else (Vcpu.entering now, record b { vtime_ns = now })

-- `clock_cpu_halt_cb_internal` up to the wait, in a device that is realized. A negative `now` panics,
-- so it is not one.
unfoldable pub enter_hook :
    (bql_held : Bool) (now : ℕ) → VirtmcuClock → VirtmcuClockBackend → Vcpu × VirtmcuClockBackend
unfolding begin_wait
enter_hook bql_held now s b =
    if s.node_id == u32_max || lt_i64 now s.next_quantum_ns
    then (Vcpu.running, b)
    else begin_wait bql_held now b

-- The vCPU says that it has reached the boundary, unless it only comes back from a yield.
unfoldable pub announce : (is_yielding : Bool) → VirtmcuClockBackend → VirtmcuClockBackend
announce true b = b
announce false b = record b { state = QuantumState.waiting }

-- One round of the spin loop, where the state was `state`
unfoldable pub spin :
    (should_yield spun_enough : Bool) (now : ℕ) (shutdown : Bool) → QuantumState → Vcpu
spin should_yield spun_enough now shutdown executing = Vcpu.loading now
spin should_yield spun_enough now shutdown waiting =
    if shutdown
    then Vcpu.resuming now 0
    else if should_yield
    then Vcpu.resuming now quantum_wait_yield_sentinel
    else if spun_enough
    then Vcpu.blocked now
    else Vcpu.spinning now

-- The tests of the second loop, up to `wait_timeout`
unfoldable pub block : (should_yield : Bool) (now : ℕ) (shutdown : Bool) → QuantumState → Vcpu
block should_yield now shutdown executing = Vcpu.loading now
block should_yield now shutdown waiting =
    if shutdown
    then Vcpu.resuming now 0
    else if should_yield
    then Vcpu.resuming now quantum_wait_yield_sentinel
    else Vcpu.parked now

-- `wait_timeout` has returned; `expired` is `result.timed_out() && start.elapsed() > timeout`.
unfoldable pub wake : (expired : Bool) (now : ℕ) → VirtmcuClockBackend → Vcpu × VirtmcuClockBackend
wake expired now b =
    if expired
    then (
      Vcpu.resuming now quantum_wait_stall_sentinel,
      record b { stall_count = (b.stall_count + 1) % 2 ^ 64; pending_stall = true },
    )
    else (Vcpu.blocked now, b)

-- What QEMU answers after the wait; `halted` is the argument of the hook.
pub record Readings : Type 0 where
  pub now_after_block : ℕ  -- i64
  pub now_final : ℕ  -- i64
  pub icount_enabled : Bool
  pub halted : Bool

-- A stall and a yield hold the position.
unfoldable pub delta_of : (raw_delta : ℕ) → ℕ
delta_of raw_delta =
    if raw_delta == quantum_wait_stall_sentinel || raw_delta == quantum_wait_yield_sentinel
    then 0
    else raw_delta

-- `icount_advance(target_vtime - now_after_block)`, if it is called
unfoldable pub advance : Readings → (delta target_vtime : ℕ) → List ℕ
advance r delta target_vtime =
    if ltb 0 delta
      && ((if r.icount_enabled then false else true) || r.halted)
      && lt_i64 r.now_after_block target_vtime
    then (target_vtime + 2 ^ 64 - r.now_after_block) % 2 ^ 64 ∷ []
    else []

-- `clock_cpu_halt_cb_internal` after the wait
unfoldable pub resume : Readings → (now raw_delta : ℕ) → VirtmcuClock → VirtmcuClock
unfolding delta_of advance
resume r now raw_delta s =
    let delta = delta_of raw_delta in
    let target_vtime = (now + delta) % 2 ^ 64 in
    let next = if lt_i64 target_vtime r.now_final then r.now_final else target_vtime in
    record s {
      is_yielding = raw_delta == quantum_wait_yield_sentinel;
      advanced = s.advanced ++ advance r delta target_vtime;
      next_quantum_ns = next;
      quantum_timer = Option.map (λ _. next) s.quantum_timer;
    }
