-- ===== src/Clock/Handshake.antt =====
-- Grants and returns: while nothing times out and nothing shuts down, the vCPU leaves the wait once
-- for each quantum that the worker has accepted.
mod Returning
mod Granting
pub mod Run
use qenode.Base.{
  ℕ, ◌≤◌, ◌<◌, ◌≡◌, refl, sym, ◌∙◌, ap, ◌==◌, ◌||◌, if◌then◌else◌, ◌⊎◌, inl, inr, Bool, true, false,
  Option, none, some, List, [], ◌∷◌, ◌++◌, arith, map,
}
use qenode.Clock.Backend.{QuantumState, executing, waiting, VirtmcuClockBackend}
use qenode.Clock.Vcpu.{
  VirtmcuClock, Vcpu, running, entering, spinning, blocked, parked, loading, resuming,
  quantum_wait_yield_sentinel, u32_max, lt_i64, spin, block, enter_hook, begin_wait, announce, wake,
  resume, Readings,
}
use qenode.Clock.Worker.{
  ClockAdvanceReq, Worker, starting, receiving, readying, granting, awaiting, reporting, answering,
  held, stopped, aborted,
}
use qenode.Clock.System.{
  System, Event, hook, announces, polls, wakes, loads, resumes, begins, receives, looks, grants,
  collects, answers, start_arrives, drops, step, run, on_poll, on_hook, on_announce, on_wake,
  on_resume, on_load, set_vcpu,
}

-- The vCPU waits for a grant, also while it yields.
abbrev pub inside : (is_yielding : Bool) → Vcpu → Bool
inside y running = y
inside y (entering now) = y
inside y (spinning now) = true
inside y (blocked now) = true
inside y (parked now) = true
inside y (loading now) = false
inside y (resuming now raw_delta) = raw_delta == quantum_wait_yield_sentinel

-- It has seen the grant and not yet read the delta.
abbrev pub about_to_load : Vcpu → Bool
about_to_load (loading now) = true
about_to_load _ = false

-- It executes the quantum.
abbrev pub away : (is_yielding : Bool) → Vcpu → Bool
away y v = if inside y v || about_to_load v then false else true

pub data Phase : Type 0 where
  settled : Phase  -- no quantum is under way
  offered : (delta : ℕ) → Phase
  granted : (delta : ℕ) → Phase

abbrev pub phase : Worker → Phase
phase (readying req is_first) = Phase.offered req.delta_ns
phase (granting req is_first) = Phase.offered req.delta_ns
phase (awaiting req is_first) = Phase.granted req.delta_ns
phase _ = Phase.settled

abbrev pub IsDelta : ℕ → Type 0
IsDelta delta = (0 < delta) × (delta < quantum_wait_yield_sentinel)

-- What is left to read: the delta of a request that the vCPU has not had.
abbrev pub Unread : List ℕ → List ℕ → ℕ → Type 0
Unread accepted returned delta = (accepted ≡ returned ++ (delta ∷ [])) × IsDelta delta

-- Nothing is left to read, and the vCPU waits.
abbrev pub Rest : QuantumState → Bool → Vcpu → (accepted returned : List ℕ) → Type 0
Rest st y v accepted returned =
    (st ≡ QuantumState.waiting) × (inside y v ≡ true) × (accepted ≡ returned)

-- What the two threads hold in each phase: where the vCPU is, and which deltas it has had.
abbrev pub Shape :
    QuantumState → (delta_ns : ℕ) → Bool → Vcpu → (accepted returned : List ℕ) → Phase → Type 0
Shape st delta_ns y v accepted returned settled = Rest st y v accepted returned
Shape st delta_ns y v accepted returned (offered delta) =
    (st ≡ QuantumState.waiting)
    × (inside y v ≡ true)
    × (delta_ns ≡ delta)
    × Unread accepted returned delta
Shape st delta_ns y v accepted returned (granted delta) =
    ((st ≡ QuantumState.executing)
      × (away y v ≡ false)
      × (delta_ns ≡ delta)
      × Unread accepted returned delta)
    ⊎ ((st ≡ QuantumState.executing) × (away y v ≡ true) × (accepted ≡ returned))
    ⊎ Rest st y v accepted returned

abbrev pub deltas : List ClockAdvanceReq → List ℕ
deltas = map (λ req. req.delta_ns)

pub record IsOrdered (s : System) : Type 0 where
  pub up : s.backend.shutdown ≡ false
  pub shape :
      Shape s.backend.state s.backend.delta_ns s.device.is_yielding s.vcpu
        (deltas s.accepted)
        s.returned
        (phase s.worker)

-- What the worker receives is a delta that is no sentinel and not zero.
abbrev pub AllDeltas : Option ClockAdvanceReq → Type 0
AllDeltas none = Unit
AllDeltas (some req) = IsDelta req.delta_ns
