-- ===== src/Clock/Handshake/Returning.antt =====
-- Each access of the vCPU keeps the order of the hand-over.
use qenode.Base.{
  ℕ, ◌≡◌, refl, sym, ◌∙◌, ◌==◌, ◌||◌, if◌then◌else◌, inl, inr, Bool, true, false, List, [], ◌∷◌,
  ◌++◌, arith,
}
use qenode.Clock.Backend.{QuantumState, executing, waiting, VirtmcuClockBackend}
use qenode.Clock.Vcpu.{
  Vcpu, running, entering, spinning, blocked, parked, loading, resuming,
  quantum_wait_yield_sentinel, u32_max, lt_i64, spin, block, enter_hook, begin_wait, announce, wake,
  resume, Readings,
}
use qenode.Clock.System.{
  System, on_poll, on_hook, on_announce, on_wake, on_resume, on_load, set_vcpu,
}
use qenode.Clock.Handshake.{
  inside, away, Phase, settled, offered, granted, phase, Shape, IsOrdered, deltas,
}

-- The vCPU moves, and neither the shared state nor its place in the hand-over changes.
Shape-move :
    (st : QuantumState) (delta_ns : ℕ) (y y' : Bool) (v v' : Vcpu) (accepted returned : List ℕ)
    (ph : Phase)
    → inside y v ≡ inside y' v'
    → away y v ≡ away y' v'
    → Shape st delta_ns y v accepted returned ph
    → Shape st delta_ns y' v' accepted returned ph
Shape-move st d y y' v v' acc ret settled i a h = (h.0, sym i ∙ h.1, h.2)
Shape-move st d y y' v v' acc ret (offered delta) i a h = (h.0, sym i ∙ h.1, h.2, h.3)
Shape-move st d y y' v v' acc ret (granted delta) i a (inl h) = inl (h.0, sym a ∙ h.1, h.2, h.3)
Shape-move st d y y' v v' acc ret (granted delta) i a (inr (inl h)) =
    inr (inl (h.0, sym a ∙ h.1, h.2))
Shape-move st d y y' v v' acc ret (granted delta) i a (inr (inr h)) =
    inr (inr (h.0, sym i ∙ h.1, h.2))

-- The waiting vCPU sees the grant.
Shape-seen :
    (delta_ns : ℕ) (y : Bool) (v : Vcpu) (now : ℕ) (accepted returned : List ℕ) (ph : Phase)
    → inside y v ≡ true
    → Shape executing delta_ns y v accepted returned ph
    → Shape executing delta_ns y (loading now) accepted returned ph
Shape-seen d y v now acc ret settled i h = absurd (ground (arith, h))
Shape-seen d y v now acc ret (offered delta) i h = absurd (ground (arith, h))
Shape-seen d y v now acc ret (granted delta) i (inl h) = inl (h.0, refl, h.2, h.3)
Shape-seen d y v now acc ret (granted delta) i (inr (inl h)) = absurd (ground (arith, h, i))
Shape-seen d y v now acc ret (granted delta) i (inr (inr h)) = absurd (ground (arith, h))

-- A round of a loop that moves to `loading` where the grant is there, and stays otherwise
Shape-round :
    (look : QuantumState → Vcpu) (st : QuantumState) (delta_ns : ℕ) (y : Bool) (v : Vcpu) (now : ℕ)
    (accepted returned : List ℕ) (ph : Phase)
    → look executing ≡ loading now
    → inside y (look waiting) ≡ true
    → inside y v ≡ true
    → Shape st delta_ns y v accepted returned ph
    → Shape st delta_ns y (look st) accepted returned ph
Shape-round look executing d y v now acc ret ph seen stays i h =
    rw seen (Shape-seen d y v now acc ret ph i h)
Shape-round look waiting d y v now acc ret ph seen stays i h =
    Shape-move waiting d y y v (look waiting) acc ret ph (i ∙ sym stays) (ground (arith, i, stays))
      h

pub poll-IsOrdered :
    (should_yield spun_enough : Bool) (v : Vcpu) (s : System)
    → IsOrdered (record s { vcpu = v })
    → IsOrdered (on_poll should_yield spun_enough v (record s { vcpu = v }))
unfolding spin block
poll-IsOrdered y e running s h = h
poll-IsOrdered y e (entering now) s h = h
poll-IsOrdered y e (parked now) s h = h
poll-IsOrdered y e (loading now) s h = h
poll-IsOrdered y e (resuming now raw_delta) s h = h
poll-IsOrdered y e (spinning now) s h = record {
  up = h.up;
  shape =
      Shape-round (spin y e now s.backend.shutdown) s.backend.state s.backend.delta_ns
        s.device.is_yielding (spinning now) now (deltas s.accepted) s.returned (phase s.worker) refl
        (rw h.up (ground arith)) refl h.shape;
}
poll-IsOrdered y e (blocked now) s h = record {
  up = h.up;
  shape =
      Shape-round (block y now s.backend.shutdown) s.backend.state s.backend.delta_ns
        s.device.is_yielding (blocked now) now (deltas s.accepted) s.returned (phase s.worker) refl
        (rw h.up (ground arith)) refl h.shape;
}

set_vcpu-if :
    (b : Bool) (s : System) (p q : Vcpu × VirtmcuClockBackend)
    → IsOrdered (set_vcpu s p)
    → IsOrdered (set_vcpu s q)
    → IsOrdered (set_vcpu s (if b then p else q))
set_vcpu-if true s p q hp hq = hp
set_vcpu-if false s p q hp hq = hq

pub hook-IsOrdered :
    (now : ℕ) (v : Vcpu) (s : System)
    → IsOrdered (record s { vcpu = v })
    → IsOrdered (on_hook false now v (record s { vcpu = v }))
unfolding enter_hook begin_wait
hook-IsOrdered now running s h =
    set_vcpu-if (s.device.node_id == u32_max || lt_i64 now s.device.next_quantum_ns) s
      (running, s.backend) (entering now, record s.backend { vtime_ns = now }) h
      (record {
        up = h.up;
        shape =
            Shape-move s.backend.state s.backend.delta_ns s.device.is_yielding s.device.is_yielding
              running (entering now) (deltas s.accepted) s.returned (phase s.worker) refl refl
              h.shape;
      })
hook-IsOrdered now (entering _) s h = h
hook-IsOrdered now (spinning _) s h = h
hook-IsOrdered now (blocked _) s h = h
hook-IsOrdered now (parked _) s h = h
hook-IsOrdered now (loading _) s h = h
hook-IsOrdered now (resuming _ raw_delta) s h = h

-- The vCPU is back from the quantum.
Shape-arrive :
    (st : QuantumState) (delta_ns now : ℕ) (accepted returned : List ℕ) (ph : Phase)
    → Shape st delta_ns false (entering now) accepted returned ph
    → Shape waiting delta_ns false (spinning now) accepted returned ph
Shape-arrive st d now acc ret settled h = absurd (ground (arith, h))
Shape-arrive st d now acc ret (offered delta) h = absurd (ground (arith, h))
Shape-arrive st d now acc ret (granted delta) (inl h) = absurd (ground (arith, h))
Shape-arrive st d now acc ret (granted delta) (inr (inl h)) = inr (inr (refl, refl, h.2))
Shape-arrive st d now acc ret (granted delta) (inr (inr h)) = absurd (ground (arith, h))

announced :
    (y : Bool) (now : ℕ) (b : VirtmcuClockBackend) (accepted returned : List ℕ) (ph : Phase)
    → b.shutdown ≡ false
    → Shape b.state b.delta_ns y (entering now) accepted returned ph
    → ((announce y b).shutdown ≡ false)
      × Shape (announce y b).state (announce y b).delta_ns y (spinning now) accepted returned ph
unfolding announce
announced true now b acc ret ph up h = (
  up,
  Shape-move b.state b.delta_ns true true (entering now) (spinning now) acc ret ph refl refl h,
)
announced false now b acc ret ph up h = (up, Shape-arrive b.state b.delta_ns now acc ret ph h)

pub announce-IsOrdered :
    (v : Vcpu) (s : System)
    → IsOrdered (record s { vcpu = v })
    → IsOrdered (on_announce v (record s { vcpu = v }))
unfolding announce
announce-IsOrdered (entering now) s h =
    let a =
      announced s.device.is_yielding now s.backend (deltas s.accepted) s.returned (phase s.worker)
        h.up h.shape in
    record { up = a.0; shape = a.1 }
announce-IsOrdered running s h = h
announce-IsOrdered (spinning _) s h = h
announce-IsOrdered (blocked _) s h = h
announce-IsOrdered (parked _) s h = h
announce-IsOrdered (loading _) s h = h
announce-IsOrdered (resuming _ raw_delta) s h = h

pub wake-IsOrdered :
    (v : Vcpu) (s : System)
    → IsOrdered (record s { vcpu = v })
    → IsOrdered (on_wake false v (record s { vcpu = v }))
unfolding wake
wake-IsOrdered (parked now) s h = record {
  up = h.up;
  shape =
      Shape-move s.backend.state s.backend.delta_ns s.device.is_yielding s.device.is_yielding
        (parked now) (blocked now) (deltas s.accepted) s.returned (phase s.worker) refl refl
        h.shape;
}
wake-IsOrdered running s h = h
wake-IsOrdered (entering _) s h = h
wake-IsOrdered (spinning _) s h = h
wake-IsOrdered (blocked _) s h = h
wake-IsOrdered (loading _) s h = h
wake-IsOrdered (resuming _ raw_delta) s h = h

pub resume-IsOrdered :
    (r : Readings) (v : Vcpu) (s : System)
    → IsOrdered (record s { vcpu = v })
    → IsOrdered (on_resume r v (record s { vcpu = v }))
unfolding resume
resume-IsOrdered r (resuming now raw_delta) s h = record {
  up = h.up;
  shape =
      Shape-move s.backend.state s.backend.delta_ns s.device.is_yielding
        (raw_delta == quantum_wait_yield_sentinel) (resuming now raw_delta) running
        (deltas s.accepted) s.returned (phase s.worker) refl refl h.shape;
}
resume-IsOrdered r running s h = h
resume-IsOrdered r (entering _) s h = h
resume-IsOrdered r (spinning _) s h = h
resume-IsOrdered r (blocked _) s h = h
resume-IsOrdered r (parked _) s h = h
resume-IsOrdered r (loading _) s h = h

-- The vCPU reads the delta.
Shape-load :
    (st : QuantumState) (delta_ns : ℕ) (y : Bool) (now : ℕ) (accepted returned : List ℕ)
    (ph : Phase)
    → Shape st delta_ns y (loading now) accepted returned ph
    → Shape st delta_ns y (resuming now delta_ns) accepted (returned ++ (delta_ns ∷ [])) ph
Shape-load st d y now acc ret settled h = absurd (ground (arith, h))
Shape-load st d y now acc ret (offered delta) h = absurd (ground (arith, h))
Shape-load st d y now acc ret (granted delta) (inl h) =
    inr (inl (h.0, ground (arith, h), rw h.2 h.3.0))
Shape-load st d y now acc ret (granted delta) (inr (inl h)) = absurd (ground (arith, h))
Shape-load st d y now acc ret (granted delta) (inr (inr h)) = absurd (ground (arith, h))

pub load-IsOrdered :
    (v : Vcpu) (s : System)
    → IsOrdered (record s { vcpu = v })
    → IsOrdered (on_load v (record s { vcpu = v }))
load-IsOrdered (loading now) s h = record {
  up = h.up;
  shape =
      Shape-load s.backend.state s.backend.delta_ns s.device.is_yielding now (deltas s.accepted)
        s.returned (phase s.worker) h.shape;
}
load-IsOrdered running s h = h
load-IsOrdered (entering _) s h = h
load-IsOrdered (spinning _) s h = h
load-IsOrdered (blocked _) s h = h
load-IsOrdered (parked _) s h = h
load-IsOrdered (resuming _ raw_delta) s h = h
