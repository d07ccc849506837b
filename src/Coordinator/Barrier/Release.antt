-- ===== src/Coordinator/Barrier/Release.antt =====
-- What a releasing DONE returns and leaves behind, and when no DONE can release again.
use mathlib.Core.List.{Perm}
use native.Mathlib.Omega.{arith}
use qenode.Base.{
  ℕ, suc, ◌<◌, ◌≡◌, refl, sym, ◌∙◌, ap, true, false, Option, none, some, List, [], ◌∷◌, ◌++◌,
  get_or, count_true, count_true-full,
}
use qenode.Base.Sort.{sort, IsSorted, sort-IsSorted, sort-perm}
use qenode.Coordinator.Message.{CoordMessage, message_ord}
use qenode.Coordinator.Barrier.{
  QuantumBarrier, Result, ok, err, duplicate_done, next_u64, admit, accept, promote, submit_next,
  submit_current, submit_done,
}
use qenode.Coordinator.Barrier.Invariant.{IsValid, submit_done-IsValid}

-- What a release makes of the barrier `b`, when `node` reports `ms` last and `batch` goes out.
pub record Completed (b after : QuantumBarrier) (node : ℕ) (ms batch : List CoordMessage)
    : Type 0 where
  pub ascending : IsSorted batch
  pub contents : Perm batch (b.message_buffer ++ admit b ms)
  pub last_missing : suc b.done_count ≡ b.n_nodes
  pub was_missing : get_or b.done_nodes node false ≡ false
  pub advanced : after.current_quantum ≡ next_u64 b.current_quantum
  pub promoted_messages : after.message_buffer ≡ b.next_quantum_buffer
  pub promoted_marks : after.done_nodes ≡ b.next_quantum_done_nodes
  pub lookahead_empty : after.next_quantum_buffer ≡ []

module _ (b : QuantumBarrier) (node quantum expected : ℕ) (ms batch : List CoordMessage) where
  release_parts :
      (submit_done b node quantum expected ms).1 ≡ ok (some batch)
      → (batch ≡ sort (b.message_buffer ++ admit b ms))
        × ((submit_done b node quantum expected ms).0 ≡ promote (accept b node ms))
        × (suc b.done_count ≡ b.n_nodes)
        × (node < b.n_nodes)
        × (get_or b.done_nodes node false ≡ false)
  unfolding submit_done submit_next submit_current accept
  release_parts h = ground arith

  -- A DONE that releases a batch completes the quantum: the batch is ascending in the canonical
  -- order and holds the messages buffered for the quantum and those admitted from this report, as
  -- often as they were; the reporting node was the last one missing; the counter advances by one (as
  -- a `u64`), and the lookahead messages and marks become those of the running quantum.
  pub submit_done_release :
      (submit_done b node quantum expected ms).1 ≡ ok (some batch)
      → Completed b (submit_done b node quantum expected ms).0 node ms batch
  unfolding promote accept
  submit_done_release h =
      let parts = release_parts h in
      record {
        ascending = rw (parts.0) (sort-IsSorted (b.message_buffer ++ admit b ms));
        contents = rw (parts.0) (sort-perm (b.message_buffer ++ admit b ms));
        last_missing = parts.2;
        was_missing = parts.4;
        advanced = ap (λ (q : QuantumBarrier). q.current_quantum) parts.1;
        promoted_messages = ap (λ (q : QuantumBarrier). q.message_buffer) parts.1;
        promoted_marks = ap (λ (q : QuantumBarrier). q.done_nodes) parts.1;
        lookahead_empty = ap (λ (q : QuantumBarrier). q.next_quantum_buffer) parts.1;
      }

-- One DONE with its arguments.
pub record Submission : Type 0 where
  pub node_id : ℕ
  pub quantum : ℕ
  pub expected_quantum : ℕ
  pub messages : List CoordMessage

abbrev collect :
    Result (Option (List CoordMessage)) → List (List CoordMessage) → List (List CoordMessage)
collect (ok (some batch)) rest = batch ∷ rest
collect (ok none) rest = rest
collect (err e) rest = rest

-- All batches that a sequence of DONE reports releases.
unfoldable pub batches : QuantumBarrier → List Submission → List (List CoordMessage)
batches b [] = []
batches b (s ∷ ss) =
    let (b', result) = submit_done b s.node_id s.quantum s.expected_quantum s.messages in
    collect result (batches b' ss)

-- Every node is marked, and the quantum is not released.
pub record IsStalled (b : QuantumBarrier) : Type 0 where
  pub valid : IsValid b
  pub full : b.done_count ≡ b.n_nodes

module _ (b : QuantumBarrier) (stalled : IsStalled b) where
  all_marked : (node : ℕ) → node < b.n_nodes → get_or b.done_nodes node false ≡ true
  all_marked node h =
      let v = stalled.valid in
      count_true-full b.done_nodes node (sym v.counted ∙ stalled.full ∙ sym v.marks) (rw v.marks h)

  stalled-submit_current :
      (node : ℕ) (ms : List CoordMessage)
      → node < b.n_nodes
      → submit_current b node ms ≡ (b, err duplicate_done)
  unfolding submit_current
  stalled-submit_current node ms h = rw (all_marked node h)

  stalled_keeps :
      (s : Submission)
      → ((submit_done b s.node_id s.quantum s.expected_quantum s.messages).0.done_count
          ≡ b.done_count)
        × ((submit_done b s.node_id s.quantum s.expected_quantum s.messages).0.n_nodes ≡ b.n_nodes)
        × (collect (submit_done b s.node_id s.quantum s.expected_quantum s.messages).1 [] ≡ [])
  unfolding submit_done submit_next
  stalled_keeps s = ground (arith, stalled-submit_current s.node_id s.messages)

  IsStalled-submit_done :
      (s : Submission)
      → IsStalled (submit_done b s.node_id s.quantum s.expected_quantum s.messages).0
  IsStalled-submit_done s =
      let kept = stalled_keeps s in
      record {
        valid =
            submit_done-IsValid b s.node_id s.quantum s.expected_quantum s.messages stalled.valid;
        full = kept.0 ∙ stalled.full ∙ sym kept.1;
      }

collect_none :
    (r : Result (Option (List CoordMessage))) (rest : List (List CoordMessage))
    → collect r [] ≡ []
    → collect r rest ≡ rest
collect_none (ok (some batch)) rest h = ground arith
collect_none (ok none) rest h = refl
collect_none (err e) rest h = refl

stalled-batches : (b : QuantumBarrier) (ss : List Submission) → IsStalled b → batches b ss ≡ []
unfolding batches
stalled-batches b [] stalled = refl
stalled-batches b (s ∷ ss) stalled =
    collect_none (submit_done b s.node_id s.quantum s.expected_quantum s.messages).1 _
      (stalled_keeps b stalled s).2
    ∙ stalled-batches (submit_done b s.node_id s.quantum s.expected_quantum s.messages).0 ss
        (IsStalled-submit_done b stalled s)

promote-full :
    (b : QuantumBarrier) (node : ℕ) (ms : List CoordMessage)
    → count_true b.next_quantum_done_nodes ≡ b.n_nodes
    → (promote (accept b node ms)).done_count ≡ (promote (accept b node ms)).n_nodes
unfolding promote accept
promote-full b node ms full = full

-- When a quantum is released while every node has already reported the next one, nothing that any
-- node submits afterwards releases a batch again.
pub lookahead_stall :
    (b : QuantumBarrier) (node quantum expected : ℕ) (ms batch : List CoordMessage)
    → IsValid b
    → count_true b.next_quantum_done_nodes ≡ b.n_nodes
    → (submit_done b node quantum expected ms).1 ≡ ok (some batch)
    → (ss : List Submission) → batches (submit_done b node quantum expected ms).0 ss ≡ []
lookahead_stall b node quantum expected ms batch v full h ss =
    let after = (release_parts b node quantum expected ms batch h).1 in
    stalled-batches (submit_done b node quantum expected ms).0 ss (record {
      valid = submit_done-IsValid b node quantum expected ms v;
      full = rw after (promote-full b node ms full);
    })
