-- ===== src/Coordinator/Server/InStep.antt =====
-- The coordinator's own quantum and its barrier's, over any sequence of samples.
use qenode.Base.{
  ℕ, ◌≡◌, subst, refl, sym, ◌∙◌, ap, Option, none, some, List, [], ◌∷◌, ◌++◌, arith, inl, inr,
  if◌then◌else◌, Option-cases, Bool, true, false,
}
use qenode.Base.Bytes.{Text}
use qenode.Base.Maps.{add, lookup}
use qenode.Base.Order.{nat_ord}
use qenode.Base.Float.{Float}
use qenode.Base.Sort.{sort}
use qenode.Coordinator.Protocol.{Protocol}
use qenode.Coordinator.Message.{CoordMessage, message_ord}
use qenode.Coordinator.Barrier.{
  QuantumBarrier, Result, ok, err, next_u64, submit_done, submit_next, submit_current, accept,
  promote,
}
use qenode.Coordinator.Barrier.Invariant.{IsValid, submit_done-IsValid}
use qenode.Coordinator.Topology.{Control, update_from_json}
use qenode.Coordinator.Topics.{split, parse_legacy_topic}
use qenode.Coordinator.Delivery.{Put}
use qenode.Coordinator.Server.Unpack.{
  State, Flatbuffers, unpack_legacy, Unpacked, malformed, missing, frame,
}
use qenode.Coordinator.Server.Legacy.{deliver, or_empty, on_legacy, on_control, accept_legacy}
use qenode.Coordinator.Server.Done.{
  deliver_all, after_barrier, done, partition, done_node, parse_done, on_done,
}

-- The quantum after an answer of the barrier.
abbrev advanced : ℕ → Result (Option (List CoordMessage)) → ℕ
advanced q (ok (some batch)) = next_u64 q
advanced q (ok none) = q
advanced q (err e) = q

submit_done-advanced :
    (b : QuantumBarrier) (node quantum expected : ℕ) (ms : List CoordMessage)
    → (submit_done b node quantum expected ms).0.current_quantum
      ≡ advanced b.current_quantum (submit_done b node quantum expected ms).1
unfolding submit_done submit_next submit_current accept promote
submit_done-advanced b node quantum expected ms = ground arith

-- The coordinator's quantum is that of its barrier, and the barrier is well formed.
pub record InStep {f : Float} (s : State f) : Type 0 where
  pub quantum : s.barrier.current_quantum ≡ s.current_quantum
  pub barrier_valid : IsValid s.barrier

-- One sample that the loop receives.
pub data Sample (f : Float) : Type 0 where
  legacy : (topic : Text) → (payload : List ℕ) → Sample f
  control : Control f → Sample f
  done_sample : (topic : Text) → (payload : List ℕ) → Sample f

module _ (f : Float) (fb : Flatbuffers) where
  unfoldable pub step : State f → Sample f → State f × List Put
  step s (legacy topic payload) = on_legacy f fb s topic payload
  step s (control c) = (on_control f fb s c, [])
  step s (done_sample topic payload) = on_done f fb s topic payload

  unfoldable pub run : State f → List (Sample f) → State f
  unfolding step
  run s [] = s
  run s (x ∷ xs) = run (step s x).0 xs

  deliver_all-quantum :
      (s : State f) (ms : List CoordMessage)
      → ((deliver_all f fb s ms).0.barrier ≡ s.barrier)
        × ((deliver_all f fb s ms).0.current_quantum ≡ s.current_quantum)
  unfolding deliver_all deliver
  deliver_all-quantum s [] = (refl, refl)
  deliver_all-quantum s (m ∷ ms) = deliver_all-quantum (deliver f fb s m).0 ms

  after_barrier-quantum :
      (s : State f) (r : Result (Option (List CoordMessage)))
      → ((after_barrier f fb s r).0.barrier ≡ s.barrier)
        × ((after_barrier f fb s r).0.current_quantum ≡ advanced s.current_quantum r)
  unfolding after_barrier
  after_barrier-quantum s (err e) = (refl, refl)
  after_barrier-quantum s (ok none) = (refl, refl)
  after_barrier-quantum s (ok (some ms)) = let q = deliver_all-quantum s (sort ms) in (q.0, refl)

  after_barrier-InStep :
      (s : State f) (r : Result (Option (List CoordMessage)))
      → s.barrier.current_quantum ≡ advanced s.current_quantum r
      → IsValid s.barrier
      → InStep (after_barrier f fb s r).0
  after_barrier-InStep s r h v =
      let q = after_barrier-quantum s r in
      record {
        quantum = ap (λ (b : QuantumBarrier). b.current_quantum) q.0 ∙ h ∙ sym q.1;
        barrier_valid = subst IsValid (sym q.0) v;
      }

  done-InStep :
      (s : State f) (node quantum limit : ℕ) (batched : List CoordMessage)
      → InStep s
      → InStep (done f fb s node quantum limit batched).0
  unfolding done
  done-InStep s node quantum limit batched h =
      let ms = (partition limit (or_empty (lookup node s.node_batches))).0 ++ batched in
      after_barrier-InStep _ (submit_done s.barrier node quantum s.current_quantum ms).1
        (submit_done-advanced s.barrier node quantum s.current_quantum ms
          ∙ ap (λ q. advanced q (submit_done s.barrier node quantum s.current_quantum ms).1)
              h.quantum)
        (submit_done-IsValid s.barrier node quantum s.current_quantum ms h.barrier_valid)

  on_done-InStep :
      (s : State f) (topic : Text) (payload : List ℕ)
      → InStep s
      → InStep (on_done f fb s topic payload).0
  unfolding on_done
  on_done-InStep s topic payload h = elim (Option-cases (done_node (split topic))) [
    | inl e ↦ rw (e, on_done) h
    | inr (node, e) ↦
        let req = parse_done fb payload in rw (e, on_done) (done-InStep s node req.0 req.1 req.2 h)
  ]

  if-InStep :
      (b : Bool) (x y : State f × List Put)
      → InStep x.0
      → InStep y.0
      → InStep (if b then x else y).0
  if-InStep true x y h k = h
  if-InStep false x y h k = k

  accept_legacy-InStep :
      (s : State f) (proto : Protocol) (node : ℕ) (base : Text) (u : Unpacked)
      → InStep s
      → InStep (accept_legacy f fb s proto node base u).0
  unfolding accept_legacy deliver
  accept_legacy-InStep s proto node base malformed h = h
  accept_legacy-InStep s proto node base missing h = h
  accept_legacy-InStep s proto node base (frame vtime seq bytes) h =
      if-InStep s.no_pdes _ _ (record { quantum = h.quantum; barrier_valid = h.barrier_valid })
        (record { quantum = h.quantum; barrier_valid = h.barrier_valid })

  on_legacy-InStep :
      (s : State f) (topic : Text) (payload : List ℕ)
      → InStep s
      → InStep (on_legacy f fb s topic payload).0
  unfolding on_legacy
  on_legacy-InStep s topic payload h = elim (Option-cases (parse_legacy_topic topic)) [
    | inl e ↦ rw (e, on_legacy) h
    | inr ((proto, node, base), e) ↦
        rw (e, on_legacy)
          (accept_legacy-InStep (record s { seen_nodes = add node s.seen_nodes }) proto node base
            (unpack_legacy fb proto payload)
            (record { quantum = h.quantum; barrier_valid = h.barrier_valid }))
  ]

  on_control-InStep : (s : State f) (c : Control f) → InStep s → InStep (on_control f fb s c)
  unfolding on_control
  on_control-InStep s c h = elim (Option-cases (update_from_json f s.topo c)) [
    | inl e ↦ rw (e, on_control) h
    | inr (topo, e) ↦
        rw (e, on_control) (record { quantum = h.quantum; barrier_valid = h.barrier_valid })
  ]

  step-InStep : (s : State f) (x : Sample f) → InStep s → InStep (step s x).0
  unfolding step
  step-InStep s (legacy topic payload) h = on_legacy-InStep s topic payload h
  step-InStep s (control c) h = on_control-InStep s c h
  step-InStep s (done_sample topic payload) h = on_done-InStep s topic payload h

  -- From a state in which the coordinator's quantum is its barrier's and the barrier is well formed,
  -- whatever samples arrive in whatever order, both still hold; so a START that announces the
  -- coordinator's quantum announces the one for which the barrier waits.
  pub run-InStep : (s : State f) (xs : List (Sample f)) → InStep s → InStep (run s xs)
  unfolding run
  run-InStep s [] h = h
  run-InStep s (x ∷ xs) h = run-InStep (step s x).0 xs (step-InStep s x h)
