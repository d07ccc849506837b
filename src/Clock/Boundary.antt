-- ===== src/Clock/Boundary.antt =====
-- hw/rust/backbone/clock/src/lib.rs: where the next boundary lies after a wait.
use mathlib.Core.List.{append_assoc, append-nil}
use native.Mathlib.Nat.{mod-eq_of_lt}
use qenode.Base.{
  ℕ, ◌+◌, ◌-◌, ◌%◌, ◌^◌, ◌≤◌, ◌<◌, ◌≡◌, refl, sym, ◌∙◌, ap, ◌⊎◌, inl, inr, false, List, [], ◌∷◌,
  ◌++◌, arith, ltb, ltb→lt, if◌then◌else◌, Bool-cases,
}
use qenode.Clock.Vcpu.{
  quantum_wait_yield_sentinel, VirtmcuClock, Readings, resume, delta_of, advance, lt_i64,
}

-- On times that are no negative i64, `<` is that of the numbers.
lt_i64-ltb : (a b : ℕ) → a < 2 ^ 63 → b < 2 ^ 63 → lt_i64 a b ≡ ltb a b
lt_i64-ltb a b ha hb = ground (arith, ha, hb)

-- `next_quantum_ns` after the wait, for a target that did not wrap
later_of : (target final : ℕ) → ℕ
later_of target final = if ltb target final then final else target

later_of-bounds :
    (target final : ℕ)
    → (final ≤ later_of target final)
      × (target ≤ later_of target final)
      × ((later_of target final ≡ final) ⊎ (later_of target final ≡ target))
unfolding later_of
later_of-bounds target final = elim (Bool-cases (ltb target final)) [
  | inl e ↦ rw e (omega arith, omega (arith, ltb→lt target final e), inl refl)
  | inr e ↦ rw e (ground (arith, e), omega arith, inr refl)
]

resume-next :
    (r : Readings) (now raw_delta : ℕ) (s : VirtmcuClock)
    → now + delta_of raw_delta < 2 ^ 63
    → r.now_final < 2 ^ 63
    → (resume r now raw_delta s).next_quantum_ns ≡ later_of (now + delta_of raw_delta) r.now_final
unfolding resume later_of
resume-next r now raw_delta s room small =
    let whole : (now + delta_of raw_delta) % 2 ^ 64 ≡ now + delta_of raw_delta =
      mod-eq_of_lt (omega (arith, room)) in
    rw (whole, lt_i64-ltb (now + delta_of raw_delta) r.now_final room small) refl

resume-later :
    (r : Readings) (now raw_delta : ℕ) (s : VirtmcuClock)
    → now + delta_of raw_delta < 2 ^ 63
    → r.now_final < 2 ^ 63
    → let next = (resume r now raw_delta s).next_quantum_ns in
      (r.now_final ≤ next)
      × (now + delta_of raw_delta ≤ next)
      × ((next ≡ r.now_final) ⊎ (next ≡ now + delta_of raw_delta))
resume-later r now raw_delta s room small =
    rw (resume-next r now raw_delta s room small)
      (later_of-bounds (now + delta_of raw_delta) r.now_final)

-- What a return of the wait says: below the two sentinels it is a time, and these are no time.
abbrev pub time_of : (raw_delta : ℕ) → ℕ
time_of raw_delta = if ltb raw_delta quantum_wait_yield_sentinel then raw_delta else 0

delta_of-time_of : (raw : ℕ) → raw < 2 ^ 64 → delta_of raw ≡ time_of raw
unfolding delta_of
delta_of-time_of raw fit = ground (arith, fit)

-- After a wait the next boundary is the end of the quantum, or the virtual time if that is already
-- later: never behind either of them. The return
-- fits into 64 bits; times and their sums stay below 2^63.
pub resume-boundary :
    (r : Readings) (now raw_delta : ℕ) (s : VirtmcuClock)
    → raw_delta < 2 ^ 64
    → now + time_of raw_delta < 2 ^ 63
    → r.now_final < 2 ^ 63
    → let next = (resume r now raw_delta s).next_quantum_ns in
      (r.now_final ≤ next)
      × (now + time_of raw_delta ≤ next)
      × ((next ≡ r.now_final) ⊎ (next ≡ now + time_of raw_delta))
resume-boundary r now raw_delta s fit room small =
    let e = delta_of-time_of raw_delta fit in
    rw (sym e) (resume-later r now raw_delta s (rw e room) small)

-- The virtual clock of a node without icount: it stands still while the vCPU waits, and jumps by
-- what `icount_advance` is given.
abbrev pub total : List ℕ → ℕ
total [] = 0
total (n ∷ ns) = n + total ns

abbrev pub still : (now : ℕ) → Readings
still now = record {
  now_after_block = now;
  now_final = now;
  icount_enabled = false;
  halted = false;
}

abbrev pub suspended : (now raw_delta : ℕ) → Readings
unfolding advance
suspended now raw_delta = record (still now) {
  now_final =
      now + total (advance (still now) (delta_of raw_delta) ((now + delta_of raw_delta) % 2 ^ 64));
}

-- The waits of a run of quanta, each entered at the boundary of the one before
abbrev pub quanta : (raw_deltas : List ℕ) → VirtmcuClock → VirtmcuClock
quanta [] s = s
quanta (raw ∷ raws) s =
    quanta raws (resume (suspended s.next_quantum_ns raw) s.next_quantum_ns raw s)

-- The quanta that take time, of returns that fit into 64 bits
abbrev pub times : List ℕ → List ℕ
times [] = []
times (raw ∷ raws) = if ltb 0 (time_of raw) then time_of raw ∷ times raws else times raws

abbrev pub AllWords : List ℕ → Type 0
AllWords [] = Unit
AllWords (raw ∷ raws) = (raw < 2 ^ 64) × AllWords raws

abbrev spans : List ℕ → List ℕ
spans [] = []
spans (raw ∷ raws) = if ltb 0 (delta_of raw) then delta_of raw ∷ spans raws else spans raws

-- The jump of one quantum
span : (delta : ℕ) → List ℕ
span delta = if ltb 0 delta then delta ∷ [] else []

total-span : (delta : ℕ) → total (span delta) ≡ delta
unfolding span
total-span delta = ground arith

advance-span :
    (r : Readings) (now delta : ℕ)
    → r.now_after_block ≡ now
    → r.icount_enabled ≡ false
    → now + delta < 2 ^ 63
    → advance r delta (now + delta) ≡ span delta
unfolding advance span
advance-span r now delta e icount room =
    let whole : (now + delta + 2 ^ 64 - now) % 2 ^ 64 ≡ delta = omega (arith, room) in
    let before : lt_i64 now (now + delta) ≡ ltb 0 delta = ground (arith, room) in
    elim (Bool-cases (ltb 0 delta)) [
      | inl p ↦ rw (e, icount, before, p, whole) refl
      | inr p ↦ rw p refl
    ]

-- One quantum of a suspended node
resume-suspended :
    (raw : ℕ) (s : VirtmcuClock)
    → s.next_quantum_ns + delta_of raw < 2 ^ 63
    → let t = resume (suspended s.next_quantum_ns raw) s.next_quantum_ns raw s in
      (t.next_quantum_ns ≡ s.next_quantum_ns + delta_of raw)
      × (t.advanced ≡ s.advanced ++ span (delta_of raw))
unfolding resume
resume-suspended raw s room =
    let now = s.next_quantum_ns in
    let whole : (now + delta_of raw) % 2 ^ 64 ≡ now + delta_of raw =
      mod-eq_of_lt (omega (arith, room)) in
    let after = advance-span (suspended now raw) now (delta_of raw) refl refl room in
    let there : lt_i64 (now + delta_of raw) (now + delta_of raw) ≡ false = ground arith in
    rw (whole, after, total-span (delta_of raw), there) (refl, refl)

spans-cons : (raw : ℕ) (raws : List ℕ) → spans (raw ∷ raws) ≡ span (delta_of raw) ++ spans raws
unfolding span
spans-cons raw raws = ground arith

total-append : (xs ys : List ℕ) → total (xs ++ ys) ≡ total xs + total ys
total-append [] ys = omega arith
total-append (x ∷ xs) ys = omega (arith, total-append xs ys)

total-spans-cons :
    (raw : ℕ) (raws : List ℕ) → total (spans (raw ∷ raws)) ≡ delta_of raw + total (spans raws)
total-spans-cons raw raws =
    ap total (spans-cons raw raws)
    ∙ total-append (span (delta_of raw)) (spans raws)
    ∙ ap (λ n. n + total (spans raws)) (total-span (delta_of raw))

quanta-spans :
    (raws : List ℕ) (s : VirtmcuClock)
    → s.next_quantum_ns + total (spans raws) < 2 ^ 63
    → ((quanta raws s).next_quantum_ns ≡ s.next_quantum_ns + total (spans raws))
      × ((quanta raws s).advanced ≡ s.advanced ++ spans raws)
quanta-spans [] s room = (omega arith, sym (append-nil s.advanced))
quanta-spans (raw ∷ raws) s room =
    let sum = total-spans-cons raw raws in
    let one = resume-suspended raw s (omega (arith, room, sum)) in
    let t = resume (suspended s.next_quantum_ns raw) s.next_quantum_ns raw s in
    let rest = quanta-spans raws t (omega (arith, room, sum, one.0)) in
    (
      omega (arith, rest.0, one.0, sum),
      rest.1
          ∙ ap (λ (l : List ℕ). l ++ spans raws) one.1
          ∙ append_assoc s.advanced (span (delta_of raw)) (spans raws)
          ∙ ap (λ l. s.advanced ++ l) (sym (spans-cons raw raws)),
    )

spans-times : (raws : List ℕ) → AllWords raws → spans raws ≡ times raws
spans-times [] fit = refl
spans-times (raw ∷ raws) fit = rw (delta_of-time_of raw fit.0, spans-times raws fit.1) refl

-- A node without icount whose virtual clock stands still while it waits goes through waits with any
-- returns of 64 bits, stalls and yields among them, each entered at the boundary of the one before. While the
-- time stays below 2^63, the clock is advanced once by each delta that takes time, by that delta,
-- and the boundary ends where it began plus the sum of them.
pub quanta-total :
    (raws : List ℕ) (s : VirtmcuClock)
    → AllWords raws
    → s.next_quantum_ns + total (times raws) < 2 ^ 63
    → ((quanta raws s).next_quantum_ns ≡ s.next_quantum_ns + total (times raws))
      × ((quanta raws s).advanced ≡ s.advanced ++ times raws)
quanta-total raws s fit room =
    let e = spans-times raws fit in rw (sym e) (quanta-spans raws s (rw e room))
