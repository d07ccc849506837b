-- ===== src/Resd/Bracket.antt =====
-- The reading is taken between the last sample that is due and the next one.
use mathlib.Core.List.{append_assoc}
use native.Mathlib.Nat.{add-zero, zero-add}
use qenode.Base.{
  length-append, ℕ, zero, suc, ◌+◌, ◌<◌, ◌≡◌, refl, sym, ◌∙◌, ap, some, List, [], ◌∷◌, ◌++◌, arith,
  ltb, length, Bool-cases, inl, inr, if◌then◌else◌, subst,
}
use qenode.Base.Float.{Float}
use qenode.Resd.Sensor.{
  ResdSample, ResdSensor, sample_at, find_index, Casts, hold, interpolate, read_between, reading_of,
  get_reading,
}

-- The first sample not due cuts the samples after the first in two; no index is used.
abbrev pub due : (vtime_ns : ℕ) (s : ResdSample) → List ResdSample → ResdSample × List ResdSample
due vtime_ns s [] = (s, [])
due vtime_ns s (t ∷ ts) =
    let rest = due vtime_ns t ts in if ltb vtime_ns t.timestamp_ns then (s, t ∷ ts) else rest

-- The reading by that cut
abbrev pub described :
    (f : Float) (c : Casts f) (vtime_ns : ℕ) → ResdSample × List ResdSample → List f.F
described f c vtime_ns (s, []) = hold f c s
described f c vtime_ns (s, t ∷ ts) =
    if ltb vtime_ns s.timestamp_ns then hold f c s else interpolate f c vtime_ns s t

sample_at-append :
    (pre ss : List ResdSample) (n : ℕ) → sample_at (pre ++ ss) (length pre + n) ≡ sample_at ss n
sample_at-append [] ss n = ap (sample_at ss) (zero-add n)
sample_at-append (s ∷ pre) ss n =
    let next : length (s ∷ pre) + n ≡ suc (length pre + n) = omega arith in
    ap (sample_at (s ∷ (pre ++ ss))) next ∙ sample_at-append pre ss n

read_between-described :
    (f : Float) (c : Casts f) (vtime_ns : ℕ) (d : ResdSample × List ResdSample)
    → read_between f c vtime_ns (some d.0) (sample_at d.1 0) ≡ described f c vtime_ns d
unfolding read_between
read_between-described f c vtime_ns (s, []) = refl
read_between-described f c vtime_ns (s, t ∷ ts) = refl

-- The loop from an index on, as the cut of what begins there
record IsCut (vtime_ns : ℕ) (samples : List ResdSample) (i : ℕ) (d : ResdSample × List ResdSample)
    : Type 0 where
  here : sample_at samples i ≡ some d.0
  next : sample_at samples (i + 1) ≡ sample_at d.1 0

find_index-IsCut :
    (fuel : ℕ) (pre : List ResdSample) (s : ResdSample) (ss : List ResdSample) (vtime_ns : ℕ)
    → length ss < fuel
    → IsCut vtime_ns
        (pre ++ s ∷ ss)
        (find_index fuel (pre ++ s ∷ ss) vtime_ns (length pre))
        (due vtime_ns s ss)
unfolding find_index
find_index-IsCut zero pre s ss vtime_ns h = absurd (omega arith)
find_index-IsCut (suc fuel) pre s [] vtime_ns h =
    let here =
      ap (sample_at (pre ++ s ∷ [])) (sym (add-zero (length pre)))
      ∙ sample_at-append pre (s ∷ []) 0 in
    let next = sample_at-append pre (s ∷ []) 1 in rw next (record { here = here; next = next })
find_index-IsCut (suc fuel) pre s (t ∷ ts) vtime_ns h =
    let here =
      ap (sample_at (pre ++ s ∷ t ∷ ts)) (sym (add-zero (length pre)))
      ∙ sample_at-append pre (s ∷ t ∷ ts) 0 in
    let next = sample_at-append pre (s ∷ t ∷ ts) 1 in
    elim (Bool-cases (ltb vtime_ns t.timestamp_ns)) [
      | inl e ↦ rw (next, e) (record { here = here; next = next })
      | inr e ↦
          let rest = find_index-IsCut fuel (pre ++ s ∷ []) t ts vtime_ns (omega (arith, h)) in
          let longer : length (pre ++ s ∷ []) ≡ length pre + 1 = length-append pre (s ∷ []) in
          let same = append_assoc pre (s ∷ []) (t ∷ ts) in
          rw (next, e)
            (subst
              (λ l.
                IsCut vtime_ns l (find_index fuel l vtime_ns (length pre + 1)) (due vtime_ns t ts))
              same
              (subst
                (λ n.
                  IsCut vtime_ns ((pre ++ s ∷ []) ++ t ∷ ts)
                    (find_index fuel ((pre ++ s ∷ []) ++ t ∷ ts) vtime_ns n) (due vtime_ns t ts))
                longer rest))
    ]

-- The reading at a virtual time is that between the last sample that is due and the next one: the
-- last sample that is due, or the first one, holds where no sample follows or it is not due itself,
-- and otherwise the two are interpolated. Samples need not be in order: they are due up to the
-- first, after the one that begins, that is not.
pub get_reading-described :
    (f : Float) (c : Casts f) (sensor : ResdSensor) (s : ResdSample) (ss : List ResdSample)
    (vtime_ns : ℕ)
    → sensor.samples ≡ s ∷ ss
    → get_reading f c sensor vtime_ns ≡ described f c vtime_ns (due vtime_ns s ss)
unfolding get_reading reading_of
get_reading-described f c sensor s ss vtime_ns e =
    let cut = find_index-IsCut (length (s ∷ ss)) [] s ss vtime_ns (omega arith) in
    rw e (rw (cut.here, cut.next) (read_between-described f c vtime_ns (due vtime_ns s ss)))
