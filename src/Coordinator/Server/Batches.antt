-- ===== src/Coordinator/Server/Batches.antt =====
-- Which messages a DONE hands to the barrier and which it holds back.
use qenode.Base.{
  ℕ, ◌≡◌, refl, ◌∙◌, ap, ◌≢◌, false, Option, none, some, List, [], ◌∷◌, ◌++◌, leb, arith,
  if◌then◌else◌,
}
use qenode.Base.Float.{Float}
use qenode.Base.Maps.{same, same_iff, same_refl, lookup, lookup-insert}
use qenode.Base.Order.{nat_ord}
use qenode.Base.Sort.{sort}
use qenode.Coordinator.Message.{CoordMessage, message_ord}
use qenode.Coordinator.Barrier.{Result, ok, err, submit_done}
use qenode.Coordinator.Server.Unpack.{State, Flatbuffers}
use qenode.Coordinator.Server.Legacy.{deliver, remove_batch, or_empty}
use qenode.Coordinator.Server.Done.{deliver_all, after_barrier, done, partition, hold_back}

-- The messages due by the limit, and those that are later, in the order in which they came.
abbrev pub within : ℕ → List CoordMessage → List CoordMessage
within limit [] = []
within limit (m ∷ ms) =
    if leb m.delivery_vtime_ns limit then m ∷ within limit ms else within limit ms

abbrev pub beyond : ℕ → List CoordMessage → List CoordMessage
beyond limit [] = []
beyond limit (m ∷ ms) =
    if leb m.delivery_vtime_ns limit then beyond limit ms else m ∷ beyond limit ms

partition-within :
    (limit : ℕ) (ms : List CoordMessage) → partition limit ms ≡ (within limit ms, beyond limit ms)
unfolding partition
partition-within limit [] = refl
partition-within limit (m ∷ ms) = rw (partition-within limit ms) (ground arith)

lookup-remove_batch :
    (k node : ℕ) (batches : List (ℕ × List CoordMessage))
    → lookup k (remove_batch node batches) ≡ (if same node k then none else lookup k batches)
unfolding remove_batch lookup
lookup-remove_batch k node [] = ground arith
lookup-remove_batch k node ((j, ms) ∷ batches) =
    ground (arith, same_iff j k, same_iff node k, lookup-remove_batch k node batches)

lookup-hold_back :
    (node k : ℕ) (held : List CoordMessage) (batches : List (ℕ × List CoordMessage))
    → or_empty (lookup k (hold_back node held (remove_batch node batches)))
      ≡ (if same node k then held else or_empty (lookup k batches))
lookup-hold_back node k [] batches = rw (lookup-remove_batch k node batches) (ground arith)
lookup-hold_back node k (m ∷ ms) batches =
    rw
      (
        lookup-insert node k (m ∷ ms) (remove_batch node batches),
        lookup-remove_batch k node batches,
      )
      (ground arith)

module _ (f : Float) (fb : Flatbuffers) where
  deliver_all-batches :
      (s : State f) (ms : List CoordMessage)
      → ((deliver_all f fb s ms).0.node_batches ≡ s.node_batches)
        × ((deliver_all f fb s ms).0.barrier ≡ s.barrier)
  unfolding deliver_all deliver
  deliver_all-batches s [] = (refl, refl)
  deliver_all-batches s (m ∷ ms) = deliver_all-batches (deliver f fb s m).0 ms

  after_barrier-batches :
      (s : State f) (r : Result (Option (List CoordMessage)))
      → ((after_barrier f fb s r).0.node_batches ≡ s.node_batches)
        × ((after_barrier f fb s r).0.barrier ≡ s.barrier)
  unfolding after_barrier
  after_barrier-batches s (err e) = (refl, refl)
  after_barrier-batches s (ok none) = (refl, refl)
  after_barrier-batches s (ok (some ms)) = let q = deliver_all-batches s (sort ms) in (q.0, q.1)

  done-batches :
      (s : State f) (node quantum limit : ℕ) (batched : List CoordMessage)
      → (done f fb s node quantum limit batched).0.node_batches
        ≡ hold_back node
            (beyond limit (or_empty (lookup node s.node_batches)))
            (remove_batch node s.node_batches)
  unfolding done
  done-batches s node quantum limit batched =
      (after_barrier-batches _ _).0
      ∙ ap
          (λ (p : List CoordMessage × List CoordMessage).
            hold_back node p.1 (remove_batch node s.node_batches))
          (partition-within limit (or_empty (lookup node s.node_batches)))

  done-barrier :
      (s : State f) (node quantum limit : ℕ) (batched : List CoordMessage)
      → (done f fb s node quantum limit batched).0.barrier
        ≡ (submit_done s.barrier node quantum s.current_quantum
            (within limit (or_empty (lookup node s.node_batches)) ++ batched)).0
  unfolding done
  done-barrier s node quantum limit batched =
      (after_barrier-batches _ _).1
      ∙ ap
          (λ (p : List CoordMessage × List CoordMessage).
            (submit_done s.barrier node quantum s.current_quantum (p.0 ++ batched)).0)
          (partition-within limit (or_empty (lookup node s.node_batches)))

  -- A DONE of a node with a virtual time limit hands the barrier the messages of that node that wait
  -- and are due by the limit, in the order in which they came, followed by the batch of the DONE;
  -- afterwards the later ones, and no other, still wait for that node, and those of every other node
  -- wait as before, whatever the barrier answers.
  pub done_holds_back :
      (s : State f) (node quantum limit : ℕ) (batched : List CoordMessage)
      → ((done f fb s node quantum limit batched).0.barrier
          ≡ (submit_done s.barrier node quantum s.current_quantum
              (within limit (or_empty (lookup node s.node_batches)) ++ batched)).0)
        × (or_empty (lookup node (done f fb s node quantum limit batched).0.node_batches)
            ≡ beyond limit (or_empty (lookup node s.node_batches)))
        × ((k : ℕ)
            → node ≢ k
            → or_empty (lookup k (done f fb s node quantum limit batched).0.node_batches)
              ≡ or_empty (lookup k s.node_batches))
  done_holds_back s node quantum limit batched =
      let held = beyond limit (or_empty (lookup node s.node_batches)) in
      let e = done-batches s node quantum limit batched in
      (
        done-barrier s node quantum limit batched,
        rw e (lookup-hold_back node node held s.node_batches ∙ rw (same_refl node)),
        λ k ne.
            let other : same node k ≡ false = ground (arith, same_iff node k) in
            rw e (lookup-hold_back node k held s.node_batches ∙ rw other),
      )
