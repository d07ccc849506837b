-- ===== src/Coordinator/Barrier/Rounds.antt =====
-- One quantum from its first DONE to its release: what is released does not depend on the order in
-- which the nodes report, nor on the order in which a node lists its messages.
use mathlib.Core.Logic.{∥∥₁_elim}
use mathlib.Core.List.{Perm, Permᴰ, append_assoc, append-nil, perm_append_comm}
use mathlib.Core.List.Perm
use qenode.Base.{
  ℕ, suc, ◌+◌, ◌<◌, ◌≡◌, refl, ap, sym, ◌∙◌, Bool, true, false, Option, none, some, List, [], ◌∷◌,
  ◌++◌, arith, length, get_or, set, length-set,
}
use qenode.Base.Sort.{sort, sort-eq_of_perm, sort_idem}
use qenode.Coordinator.Message.{CoordMessage, message_ord}
use qenode.Coordinator.Barrier.{
  QuantumBarrier, Result, ok, err, next_u64, admit, accept, promote, submit_current, submit_done,
}

-- One DONE: the node and its messages.
abbrev pub Done : Type 0
Done = ℕ × List CoordMessage

-- The batches that a sequence of DONE reports for one quantum releases, in order.
abbrev collect :
    Result (Option (List CoordMessage)) → List (List CoordMessage) → List (List CoordMessage)
collect (ok (some batch)) rest = batch ∷ rest
collect (ok none) rest = rest
collect (err e) rest = rest

unfoldable pub released : QuantumBarrier → ℕ → List Done → List (List CoordMessage)
released b quantum [] = []
released b quantum ((node, ms) ∷ reports) =
    let (b', result) = submit_done b node quantum quantum ms in
    collect result (released b' quantum reports)

-- Each report is from a node in range that is not marked yet, and no node reports twice.
abbrev pub IsFresh : List Bool → List Done → Type 0
IsFresh marks [] = Unit
IsFresh marks ((node, ms) ∷ reports) =
    (node < length marks)
    × (get_or marks node false ≡ false)
    × IsFresh (set marks node true) reports

-- The reports that complete the running quantum: one from each node that is still missing.
pub record Completes (b : QuantumBarrier) (reports : List Done) : Type 0 where
  pub marks : length b.done_nodes ≡ b.n_nodes
  pub in_range : next_u64 b.current_quantum ≡ suc b.current_quantum
  pub fresh : IsFresh b.done_nodes reports
  pub some_missing : b.done_count < b.n_nodes
  pub all_missing : b.done_count + length reports ≡ b.n_nodes

-- What the barrier keeps of the reports.
unfoldable pub admitted : QuantumBarrier → List Done → List CoordMessage
admitted b [] = []
admitted b ((node, ms) ∷ reports) = admit b ms ++ admitted b reports

module _ (b : QuantumBarrier) (node quantum : ℕ) (ms : List CoordMessage) where
  submit_more :
      quantum ≡ b.current_quantum
      → next_u64 b.current_quantum ≡ suc b.current_quantum
      → node < b.n_nodes
      → get_or b.done_nodes node false ≡ false
      → suc b.done_count < b.n_nodes
      → submit_done b node quantum quantum ms ≡ (accept b node ms, ok none)
  unfolding submit_done submit_current accept
  submit_more q e h u k = ground arith

  submit_last :
      quantum ≡ b.current_quantum
      → next_u64 b.current_quantum ≡ suc b.current_quantum
      → node < b.n_nodes
      → get_or b.done_nodes node false ≡ false
      → suc b.done_count ≡ b.n_nodes
      → submit_done b node quantum quantum ms
        ≡ (promote (accept b node ms), ok (some (sort (b.message_buffer ++ admit b ms))))
  unfolding submit_done submit_current accept
  submit_last q e h u k = ground arith

admitted-accept :
    (b : QuantumBarrier) (node : ℕ) (ms : List CoordMessage) (reports : List Done)
    → admitted (accept b node ms) reports ≡ admitted b reports
unfolding admitted accept admit
admitted-accept b node ms [] = refl
admitted-accept b node ms ((i, r) ∷ reports) =
    ap (◌++◌ (admit b r)) (admitted-accept b node ms reports)

accept-Completes :
    (b : QuantumBarrier) (node : ℕ) (ms : List CoordMessage) (r : Done) (reports : List Done)
    → Completes b ((node, ms) ∷ r ∷ reports)
    → Completes (accept b node ms) (r ∷ reports)
unfolding accept
accept-Completes b node ms r reports c = record {
  marks = omega (arith, c.marks, length-set b.done_nodes node true);
  in_range = c.in_range;
  fresh = c.fresh.2;
  some_missing = omega (arith, c.all_missing);
  all_missing = omega (arith, c.all_missing);
}

buffer-accept :
    (b : QuantumBarrier) (node : ℕ) (ms : List CoordMessage) (reports : List Done)
    → (accept b node ms).message_buffer ++ admitted (accept b node ms) reports
      ≡ b.message_buffer ++ admitted b ((node, ms) ∷ reports)
unfolding accept admitted
buffer-accept b node ms reports =
    rw (admitted-accept b node ms reports)
      (append_assoc b.message_buffer (admit b ms) (admitted b reports))

accept_quantum :
    (b : QuantumBarrier) (node : ℕ) (ms : List CoordMessage)
    → (accept b node ms).current_quantum ≡ b.current_quantum
unfolding accept
accept_quantum b node ms = refl

released_from :
    (b : QuantumBarrier) (quantum : ℕ) (reports : List Done)
    → quantum ≡ b.current_quantum
    → Completes b reports
    → released b quantum reports ≡ sort (b.message_buffer ++ admitted b reports) ∷ []
unfolding released admitted
released_from b quantum [] q c = absurd (omega (arith, c.some_missing, c.all_missing))
released_from b quantum ((node, ms) ∷ []) q c =
    rw
      (submit_last b node quantum ms q c.in_range (omega (arith, c.marks, c.fresh.0)) c.fresh.1
        (omega (arith, c.all_missing)))
      (rw append-nil)
released_from b quantum ((node, ms) ∷ r ∷ reports) q c =
    rw
      (submit_more b node quantum ms q c.in_range (omega (arith, c.marks, c.fresh.0)) c.fresh.1
        (omega (arith, c.all_missing)))
      (released_from (accept b node ms) quantum (r ∷ reports) (q ∙ sym (accept_quantum b node ms))
          (accept-Completes b node ms r reports c)
        ∙ ap (λ l. sort l ∷ []) (buffer-accept b node ms (r ∷ reports)))

-- When the missing nodes have reported, once each, the quantum has released exactly one batch: the
-- sorted list of everything that was buffered before and of what was admitted from the reports.
pub released_lem :
    (b : QuantumBarrier) (reports : List Done)
    → Completes b reports
    → released b b.current_quantum reports ≡ sort (b.message_buffer ++ admitted b reports) ∷ []
released_lem b reports c = released_from b b.current_quantum reports refl c

-- Reports with each node's messages in canonical order.
abbrev pub canonical : List Done → List Done
canonical [] = []
canonical ((node, ms) ∷ reports) = (node, sort ms) ∷ canonical reports

admitted-canonical :
    (b : QuantumBarrier) (reports : List Done) → admitted b (canonical reports) ≡ admitted b reports
unfolding admitted admit
admitted-canonical b [] = refl
admitted-canonical b ((node, ms) ∷ reports) = rw (sort_idem ms, admitted-canonical b reports)

perm_swap_front : (xs ys zs : List CoordMessage) → Perm (xs ++ (ys ++ zs)) (ys ++ (xs ++ zs))
perm_swap_front xs ys zs =
    rw (← append_assoc xs ys zs, ← append_assoc ys xs zs)
      (Perm.append_right zs (perm_append_comm xs ys))

admitted-permᴰ :
    (b : QuantumBarrier) {xs ys : List Done} → Permᴰ xs ys → Perm (admitted b xs) (admitted b ys)
unfolding admitted
admitted-permᴰ b Permᴰ.nil = Perm.rfl
admitted-permᴰ b (Permᴰ.cons {a = x} {b = y} e p) =
    rw e (Perm.append_left (admit b y.1) (admitted-permᴰ b p))
admitted-permᴰ b (Permᴰ.swap {a' = y} {b' = x} {l = l} e f) =
    rw (e, f) (perm_swap_front (admit b x.1) (admit b y.1) (admitted b l))
admitted-permᴰ b (Permᴰ.trans p q) = Perm.trans (admitted-permᴰ b p) (admitted-permᴰ b q)

admitted-perm :
    (b : QuantumBarrier) (xs ys : List Done)
    → Perm (canonical xs) (canonical ys)
    → Perm (admitted b xs) (admitted b ys)
admitted-perm b xs ys p =
    rw (← admitted-canonical b xs, ← admitted-canonical b ys)
      (∥∥₁_elim p squash₁ (admitted-permᴰ b))

-- Determinism: two sequences of reports that complete the same quantum, and that differ only in
-- the order of the nodes and in the order of the messages within a node's report, release equal
-- batches.
pub released_deterministic :
    (b : QuantumBarrier) (xs ys : List Done)
    → Completes b xs
    → Completes b ys
    → Perm (canonical xs) (canonical ys)
    → released b b.current_quantum xs ≡ released b b.current_quantum ys
released_deterministic b xs ys c d p =
    rw (released_lem b xs c, released_lem b ys d)
      (ap (λ l. l ∷ [])
        (sort-eq_of_perm (Perm.append_left b.message_buffer (admitted-perm b xs ys p))))
