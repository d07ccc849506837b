-- ===== src/Coordinator/Barrier/Invariant.antt =====
-- What the barrier's methods keep true of its counters, marks and buffers.
use qenode.Base.{
  ◌+◌, ◌∷◌, [], ℕ, suc, ◌*◌, ◌≤◌, ◌<◌, ◌≡◌, refl, ◌⊎◌, inl, inr, true, false, List, arith,
  Bool-cases, length, map, false, Bool, ap, get_or, count_true, length-append, length-take,
  length-set, length-replicate, count_true-set, count_true-replicate,
}
use qenode.Base.Sort.{sort}
use qenode.Coordinator.Message.{CoordMessage, message_ord}
use qenode.Coordinator.Barrier.{
  set_quantum, reset, QuantumBarrier, BarrierError, err, truncate, new, set_quantum, reset, admit,
  accept, promote, submit_next, submit_current, submit_done,
}

-- The counter agrees with the marks, and a buffer holds at most the limit for each marked node.
pub record IsValid (b : QuantumBarrier) : Type 0 where
  pub marks : length b.done_nodes ≡ b.n_nodes
  pub next_marks : length b.next_quantum_done_nodes ≡ b.n_nodes
  pub counted : b.done_count ≡ count_true b.done_nodes
  pub bounded : length b.message_buffer ≤ b.done_count * b.max_messages_per_node
  pub next_bounded :
      length b.next_quantum_buffer ≤ count_true b.next_quantum_done_nodes * b.max_messages_per_node

length-truncate {ℓ} : {A : Type ℓ} (n : ℕ) (xs : List A) → length (truncate n xs) ≤ n
length-truncate n xs = ground (arith, length-take n xs)

pub length-admit :
    (b : QuantumBarrier) (ms : List CoordMessage) → length (admit b ms) ≤ b.max_messages_per_node
unfolding admit
length-admit b ms = length-truncate b.max_messages_per_node (sort ms)

new-IsValid : (n max : ℕ) → IsValid (new n max)
unfolding new
new-IsValid n max = record {
  marks = length-replicate n false;
  next_marks = length-replicate n false;
  counted = omega (arith, count_true-replicate n);
  bounded = omega arith;
  next_bounded = omega (arith, count_true-replicate n);
}

-- One more marked node makes room for one more node's messages.
one_more :
    (count count' max held added : ℕ)
    → count' ≡ suc count
    → held ≤ count * max
    → added ≤ max
    → held + added ≤ count' * max
one_more count count' max held added e h k = rw e (omega arith)

accept-IsValid :
    (b : QuantumBarrier) (node : ℕ) (ms : List CoordMessage)
    → IsValid b
    → node < b.n_nodes
    → get_or b.done_nodes node false ≡ false
    → IsValid (accept b node ms)
unfolding accept
accept-IsValid b node ms v h unmarked = record {
  marks = omega (arith, v.marks, length-set b.done_nodes node true);
  next_marks = v.next_marks;
  counted =
      omega (arith, v.counted, v.marks, count_true-set b.done_nodes node (omega arith) unmarked);
  bounded =
      omega (arith, v.bounded, length-append b.message_buffer (admit b ms), length-admit b ms);
  next_bounded = v.next_bounded;
}

promote-IsValid : (b : QuantumBarrier) → IsValid b → IsValid (promote b)
unfolding promote
promote-IsValid b v = record {
  marks = v.next_marks;
  next_marks = length-replicate b.n_nodes false;
  counted = refl;
  bounded = v.next_bounded;
  next_bounded = omega (arith, count_true-replicate b.n_nodes);
}

submit_current-IsValid :
    (b : QuantumBarrier) (node : ℕ) (ms : List CoordMessage)
    → IsValid b
    → node < b.n_nodes
    → IsValid (submit_current b node ms).0
unfolding submit_current
submit_current-IsValid b node ms v h =
    ground (arith, accept-IsValid b node ms v h, promote-IsValid (accept b node ms))

submit_next-IsValid :
    (b : QuantumBarrier) (node : ℕ) (ms : List CoordMessage)
    → IsValid b
    → node < b.n_nodes
    → IsValid (submit_next b node ms).0
unfolding submit_next
submit_next-IsValid b node ms v h =
    elim (Bool-cases (get_or b.next_quantum_done_nodes node false)) [
      | inl marked ↦ rw marked v
      | inr unmarked ↦ rw unmarked (record {
        marks = v.marks;
        next_marks = omega (arith, v.next_marks, length-set b.next_quantum_done_nodes node true);
        counted = v.counted;
        bounded = v.bounded;
        next_bounded = rw (length-append b.next_quantum_buffer (admit b ms)) (
            one_more _ _ _ _ _
              (count_true-set b.next_quantum_done_nodes node (omega (arith, v.next_marks)) unmarked)
              v.next_bounded (length-admit b ms));
      })
    ]

-- Whatever a node submits, and for whichever quantum, the invariant survives.
pub submit_done-IsValid :
    (b : QuantumBarrier) (node quantum expected : ℕ) (ms : List CoordMessage)
    → IsValid b
    → IsValid (submit_done b node quantum expected ms).0
unfolding submit_done
submit_done-IsValid b node quantum expected ms v =
    ground (arith, submit_next-IsValid b node ms v, submit_current-IsValid b node ms v)

-- A call that reports an error, and a stale call, leave the barrier as it was.
pub submit_done_unchanged :
    (b : QuantumBarrier) (node quantum expected : ℕ) (ms : List CoordMessage)
    → (quantum < b.current_quantum)
      ⊎ ((e : BarrierError) × ((submit_done b node quantum expected ms).1 ≡ err e))
    → (submit_done b node quantum expected ms).0 ≡ b
unfolding submit_done submit_next submit_current
submit_done_unchanged b node quantum expected ms h = ground arith

length-map-false : (bs : List Bool) → length (map (λ _. false) bs) ≡ length bs
length-map-false [] = refl
length-map-false (b ∷ bs) = ap suc (length-map-false bs)

count_true-map-false : (bs : List Bool) → count_true (map (λ _. false) bs) ≡ 0
count_true-map-false [] = refl
count_true-map-false (b ∷ bs) = count_true-map-false bs

reset-IsValid : (b : QuantumBarrier) → IsValid b → IsValid (reset b)
unfolding reset
reset-IsValid b v = record {
  marks = omega (arith, v.marks, length-map-false b.done_nodes);
  next_marks = omega (arith, v.next_marks, length-map-false b.next_quantum_done_nodes);
  counted = omega (arith, count_true-map-false b.done_nodes);
  bounded = omega arith;
  next_bounded = omega arith;
}

-- The calls that change a barrier, in the order in which they take the lock.
pub data Call : Type 0 where
  submits : (node_id quantum expected_quantum : ℕ) → List CoordMessage → Call
  sets_quantum : ℕ → Call
  resets : Call

unfoldable pub call : QuantumBarrier → Call → QuantumBarrier
call b (submits node quantum expected ms) = (submit_done b node quantum expected ms).0
call b (sets_quantum quantum) = set_quantum b quantum
call b resets = reset b

unfoldable pub run : QuantumBarrier → List Call → QuantumBarrier
unfolding call
run b [] = b
run b (c ∷ cs) = run (call b c) cs

call-IsValid : (b : QuantumBarrier) (c : Call) → IsValid b → IsValid (call b c)
unfolding call set_quantum
call-IsValid b (submits node quantum expected ms) v =
    submit_done-IsValid b node quantum expected ms v
call-IsValid b (sets_quantum quantum) v = record {
  marks = v.marks;
  next_marks = v.next_marks;
  counted = v.counted;
  bounded = v.bounded;
  next_bounded = v.next_bounded;
}
call-IsValid b resets v = reset-IsValid b v

run-IsValid : (b : QuantumBarrier) (cs : List Call) → IsValid b → IsValid (run b cs)
unfolding run
run-IsValid b [] v = v
run-IsValid b (c ∷ cs) v = run-IsValid (call b c) cs (call-IsValid b c v)

-- After any calls on a new barrier, in any order, the completion counter equals the number of
-- marked nodes, both mark vectors have one entry for each node, and either buffer holds at most
-- the admission limit for each node that is marked in it.
pub run-new-IsValid : (n max : ℕ) (cs : List Call) → IsValid (run (new n max) cs)
run-new-IsValid n max cs = run-IsValid (new n max) cs (new-IsValid n max)
