-- ===== src/Tests/Barrier.antt =====
-- Runs of the quantum barrier (tools/deterministic_coordinator/src/barrier.rs) with two nodes.
use mathlib.Core.List.{Perm}
use mathlib.Core.List.Perm
use qenode.Base.{ℕ, ◌≡◌, refl, inr, none, some, List, [], ◌∷◌, arith, count_true}
use qenode.Base.Sort.{sort}
use qenode.Coordinator.Protocol.{Protocol}
use qenode.Coordinator.Message.{CoordMessage, message_ord}
use qenode.Coordinator.Barrier.{
  QuantumBarrier, ok, new, set_quantum, admit, accept, promote, submit_next, submit_current,
  submit_done, node_index_out_of_bounds,
}
use qenode.Coordinator.Barrier.Invariant.{
  IsValid, submits, sets_quantum, resets, run, run-new-IsValid, submit_done_unchanged,
}
use qenode.Coordinator.Barrier.Rounds.{Done, Completes, canonical, released, released_deterministic}
use qenode.Coordinator.Barrier.Release.{
  Submission, batches, Completed, submit_done_release, lookahead_stall,
}

abbrev message : (src vtime seq : ℕ) → CoordMessage
message src vtime seq = record {
  src_node_id = src;
  dst_node_id = 1;
  delivery_vtime_ns = vtime;
  sequence_number = seq;
  protocol = Protocol.uart;
  payload = [];
  base_topic = none;
}

abbrev early : CoordMessage
early = message 0 10 1

abbrev late : CoordMessage
late = message 0 20 2

abbrev other : CoordMessage
other = message 1 10 7

-- Two nodes, at most three messages each, at quantum 1.
abbrev start : QuantumBarrier
unfolding set_quantum new
start = set_quantum (new 2 3) 1

abbrev in_order : List Done
in_order = (0, early ∷ late ∷ []) ∷ (1, other ∷ []) ∷ []

abbrev shuffled : List Done
shuffled = (1, other ∷ []) ∷ (0, late ∷ early ∷ []) ∷ []

batch_of_quantum : released start 1 shuffled ≡ (early ∷ other ∷ late ∷ []) ∷ []
unfolding released submit_done submit_current accept admit sort new set_quantum
batch_of_quantum = refl

in_order-Completes : Completes start in_order
unfolding new set_quantum
in_order-Completes = record {
  marks = refl;
  in_range = refl;
  fresh = (omega arith, refl, (omega arith, refl, tt));
  some_missing = omega arith;
  all_missing = refl;
}

shuffled-Completes : Completes start shuffled
unfolding new set_quantum
shuffled-Completes = record {
  marks = refl;
  in_range = refl;
  fresh = (omega arith, refl, (omega arith, refl, tt));
  some_missing = omega arith;
  all_missing = refl;
}

same_reports : Perm (canonical in_order) (canonical shuffled)
unfolding sort
same_reports = Perm.swap _ _ []

released_deterministic_example :
    released start start.current_quantum in_order ≡ released start start.current_quantum shuffled
released_deterministic_example =
    released_deterministic start in_order shuffled in_order-Completes shuffled-Completes
      same_reports

run-new-IsValid_example :
    IsValid
      (run (new 2 3) (sets_quantum 1 ∷ submits 0 1 1 (early ∷ []) ∷ submits 0 2 1 [] ∷ resets ∷ []))
run-new-IsValid_example =
    run-new-IsValid 2 3
      (sets_quantum 1 ∷ submits 0 1 1 (early ∷ []) ∷ submits 0 2 1 [] ∷ resets ∷ [])

submit_done_unchanged_example : (submit_done start 5 1 1 (early ∷ [])).0 ≡ start
unfolding submit_done new set_quantum
submit_done_unchanged_example =
    submit_done_unchanged start 5 1 1 (early ∷ []) (inr (node_index_out_of_bounds 5, refl))

-- Node 1 has reported quantum 1, and both nodes have reported quantum 2 already.
abbrev ahead : QuantumBarrier
unfolding submit_done sort
ahead =
    (submit_done (submit_done (submit_done start 1 1 1 []).0 0 2 1 (late ∷ [])).0 1 2 1
      (other ∷ [])).0

ahead_releases : (submit_done ahead 0 1 1 (early ∷ [])).1 ≡ ok (some (early ∷ []))
unfolding submit_done submit_current submit_next accept promote admit sort new set_quantum
ahead_releases = refl

submit_done_release_example :
    Completed ahead (submit_done ahead 0 1 1 (early ∷ [])).0 0 (early ∷ []) (early ∷ [])
submit_done_release_example =
    submit_done_release ahead 0 1 1 (early ∷ []) (early ∷ []) ahead_releases

ahead-IsValid : IsValid ahead
unfolding run ahead start submit_done set_quantum sort
ahead-IsValid = run-new-IsValid 2 3 (
    sets_quantum 1 ∷ submits 1 1 1 [] ∷ submits 0 2 1 (late ∷ []) ∷ submits 1 2 1 (other ∷ []) ∷ [])

ahead_full : count_true ahead.next_quantum_done_nodes ≡ ahead.n_nodes
unfolding submit_done submit_current submit_next accept promote admit sort new set_quantum
ahead_full = refl

abbrev retries : List Submission
retries =
    record { node_id = 0; quantum = 2; expected_quantum = 2; messages = early ∷ [] }
    ∷ record { node_id = 1; quantum = 2; expected_quantum = 2; messages = [] }
    ∷ []

lookahead_stall_example : batches (submit_done ahead 0 1 1 (early ∷ [])).0 retries ≡ []
lookahead_stall_example =
    lookahead_stall ahead 0 1 1 (early ∷ []) (early ∷ []) ahead-IsValid ahead_full ahead_releases
      retries
