-- ===== src/Base/Order.antt =====
-- Rust's `Ord`: a three-way comparison with its contract, and how comparisons are chained.
use Prim.Native.Nat.{ℕ, compare, Ordering}
use mathlib.Core.HLevel.{hedberg}
use mathlib.Core.Path.{◌≡◌, refl, sym, subst, ap, ap₂}
use mathlib.Core.Logic.{◌⊎◌, inl, inr}
use mathlib.Core.Bool.{Bool, true, false}
use mathlib.Core.List.{List, [], ◌∷◌}
use mathlib.Core.Option.{Option, none, some}
use native.Mathlib.Omega.{arith}

abbrev pub reverse : Ordering → Ordering
reverse Ordering.lt = Ordering.gt
reverse Ordering.eq = Ordering.eq
reverse Ordering.gt = Ordering.lt

-- `Ordering::then_with`
abbrev pub then_with : Ordering → Ordering → Ordering
then_with Ordering.lt next = Ordering.lt
then_with Ordering.eq next = next
then_with Ordering.gt next = Ordering.gt

-- `Ordering::is_le`
abbrev pub is_le : Ordering → Bool
is_le Ordering.lt = true
is_le Ordering.eq = true
is_le Ordering.gt = false

pub record Ord {ℓ} (A : Type ℓ) : Type ℓ where
  pub cmp : A → A → Ordering
  pub cmp_eq : (a b : A) → cmp a b ≡ Ordering.eq → a ≡ b
  pub cmp_reverse : (a b : A) → cmp b a ≡ reverse (cmp a b)
  pub cmp_trans :
      (a b c : A) → cmp a b ≡ Ordering.lt → cmp b c ≡ Ordering.lt → cmp a c ≡ Ordering.lt

module _ {ℓ} {A : Type ℓ} (o : Ord A) where
  self_reverse : (r : Ordering) → r ≡ reverse r → r ≡ Ordering.eq
  self_reverse Ordering.lt h = ground arith
  self_reverse Ordering.eq h = refl
  self_reverse Ordering.gt h = ground arith

  pub cmp_refl : (a : A) → o.cmp a a ≡ Ordering.eq
  cmp_refl a = self_reverse (o.cmp a a) (o.cmp_reverse a a)

  cmp_decides : (a b : A) (r : Ordering) → o.cmp a b ≡ r → Dec (a ≡ b)
  cmp_decides a b Ordering.eq h = yes (o.cmp_eq a b h)
  cmp_decides a b Ordering.lt h = no (λ e. ne e)
    where
      ne : a ≡ b → ⊥
      ne e = ground (arith, cmp_refl a, subst (λ c. o.cmp a c ≡ Ordering.lt) (sym e) h)
  cmp_decides a b Ordering.gt h = no (λ e. ne e)
    where
      ne : a ≡ b → ⊥
      ne e = ground (arith, cmp_refl a, subst (λ c. o.cmp a c ≡ Ordering.gt) (sym e) h)

  pub Ord-discrete : Discrete A
  Ord-discrete a b = cmp_decides a b (o.cmp a b) refl

  pub Ord-set : IsSet A
  Ord-set = hedberg Ord-discrete

pub compare_eq : (a b : ℕ) → compare a b ≡ Ordering.eq → a ≡ b
compare_eq a b h = ground arith

pub compare-reverse : (a b : ℕ) → compare b a ≡ reverse (compare a b)
compare-reverse a b = ground arith

pub compare_trans :
    (a b c : ℕ) → compare a b ≡ Ordering.lt → compare b c ≡ Ordering.lt → compare a c ≡ Ordering.lt
compare_trans a b c p q = ground arith

instance abbrev pub nat_ord : Ord ℕ
nat_ord = record {
  cmp = compare;
  cmp_eq = compare_eq;
  cmp_reverse = compare-reverse;
  cmp_trans = compare_trans;
}

then_with-eq :
    (r s : Ordering) → then_with r s ≡ Ordering.eq → (r ≡ Ordering.eq) × (s ≡ Ordering.eq)
then_with-eq r s h = ground arith

then_with-lt :
    (r s : Ordering)
    → then_with r s ≡ Ordering.lt
    → (r ≡ Ordering.lt) ⊎ (record { same : r ≡ Ordering.eq; below : s ≡ Ordering.lt })
then_with-lt Ordering.lt s h = inl refl
then_with-lt Ordering.eq s h = inr (record { same = refl; below = h })
then_with-lt Ordering.gt s h = ground arith

then_with-reverse : (r s : Ordering) → then_with (reverse r) (reverse s) ≡ reverse (then_with r s)
then_with-reverse r s = ground arith

-- Lexicographic order of pairs: `a.cmp(&c).then_with(|| b.cmp(&d))`.
module _ {ℓ κ} {A : Type ℓ} {B : Type κ} (o : Ord A) (p : Ord B) where
  abbrev pub pair_cmp : A × B → A × B → Ordering
  pair_cmp (a, b) (c, d) = then_with (o.cmp a c) (p.cmp b d)

  pub pair_cmp_eq : (x y : A × B) → pair_cmp x y ≡ Ordering.eq → x ≡ y
  pair_cmp_eq (a, b) (c, d) h =
      let (same, rest) = then_with-eq (o.cmp a c) (p.cmp b d) h in
      ap₂ (λ u v. (u, v)) (o.cmp_eq a c same) (p.cmp_eq b d rest)

  pub pair_cmp-reverse : (x y : A × B) → pair_cmp y x ≡ reverse (pair_cmp x y)
  pair_cmp-reverse (a, b) (c, d) =
      rw (o.cmp_reverse a c, p.cmp_reverse b d) (then_with-reverse (o.cmp a c) (p.cmp b d))

  pub pair_cmp_trans :
      (x y z : A × B)
      → pair_cmp x y ≡ Ordering.lt
      → pair_cmp y z ≡ Ordering.lt
      → pair_cmp x z ≡ Ordering.lt
  pair_cmp_trans (a, b) (c, d) (e, f) h k = elim (then_with-lt (o.cmp a c) (p.cmp b d) h) [
    | inl l ↦ elim (then_with-lt (o.cmp c e) (p.cmp d f) k) [
      | inl m ↦ rw (o.cmp_trans a c e l m)
      | inr m ↦ rw (← o.cmp_eq c e m.same, l)
    ]
    | inr l ↦ elim (then_with-lt (o.cmp c e) (p.cmp d f) k) [
      | inl m ↦ rw (o.cmp_eq a c l.same, m)
      | inr m ↦ rw (o.cmp_eq a c l.same, m.same) (p.cmp_trans b d f l.below m.below)
    ]
  ]

  abbrev pub pair_ord : Ord (A × B)
  pair_ord = record {
    cmp = pair_cmp;
    cmp_eq = pair_cmp_eq;
    cmp_reverse = pair_cmp-reverse;
    cmp_trans = pair_cmp_trans;
  }

-- Slices and `Vec`: the first difference decides, then the length.
module _ {ℓ} {A : Type ℓ} (o : Ord A) where
  abbrev pub list_cmp : List A → List A → Ordering
  list_cmp [] [] = Ordering.eq
  list_cmp [] (y ∷ ys) = Ordering.lt
  list_cmp (x ∷ xs) [] = Ordering.gt
  list_cmp (x ∷ xs) (y ∷ ys) = then_with (o.cmp x y) (list_cmp xs ys)

  pub list_cmp_eq : (xs ys : List A) → list_cmp xs ys ≡ Ordering.eq → xs ≡ ys
  list_cmp_eq [] [] h = refl
  list_cmp_eq [] (y ∷ ys) h = ground arith
  list_cmp_eq (x ∷ xs) [] h = ground arith
  list_cmp_eq (x ∷ xs) (y ∷ ys) h =
      let (same, rest) = then_with-eq (o.cmp x y) (list_cmp xs ys) h in
      ap₂ ◌∷◌ (o.cmp_eq x y same) (list_cmp_eq xs ys rest)

  pub list_cmp-reverse : (xs ys : List A) → list_cmp ys xs ≡ reverse (list_cmp xs ys)
  list_cmp-reverse [] [] = refl
  list_cmp-reverse [] (y ∷ ys) = refl
  list_cmp-reverse (x ∷ xs) [] = refl
  list_cmp-reverse (x ∷ xs) (y ∷ ys) =
      rw (o.cmp_reverse x y, list_cmp-reverse xs ys)
        (then_with-reverse (o.cmp x y) (list_cmp xs ys))

  pub list_cmp_trans :
      (xs ys zs : List A)
      → list_cmp xs ys ≡ Ordering.lt
      → list_cmp ys zs ≡ Ordering.lt
      → list_cmp xs zs ≡ Ordering.lt
  list_cmp_trans [] [] zs h k = k
  list_cmp_trans [] (y ∷ ys) [] h k = ground arith
  list_cmp_trans [] (y ∷ ys) (z ∷ zs) h k = refl
  list_cmp_trans (x ∷ xs) [] zs h k = ground arith
  list_cmp_trans (x ∷ xs) (y ∷ ys) [] h k = ground arith
  list_cmp_trans (x ∷ xs) (y ∷ ys) (z ∷ zs) h k =
      let ih = list_cmp_trans xs ys zs in
      elim (then_with-lt (o.cmp x y) (list_cmp xs ys) h) [
        | inl l ↦ elim (then_with-lt (o.cmp y z) (list_cmp ys zs) k) [
          | inl m ↦ rw (o.cmp_trans x y z l m)
          | inr m ↦ rw (← o.cmp_eq y z m.same, l)
        ]
        | inr l ↦ elim (then_with-lt (o.cmp y z) (list_cmp ys zs) k) [
          | inl m ↦ rw (o.cmp_eq x y l.same, m)
          | inr m ↦ rw (o.cmp_eq x y l.same, m.same) (ih l.below m.below)
        ]
      ]

  abbrev pub list_ord : Ord (List A)
  list_ord = record {
    cmp = list_cmp;
    cmp_eq = list_cmp_eq;
    cmp_reverse = list_cmp-reverse;
    cmp_trans = list_cmp_trans;
  }

-- `Option`: `None` comes first.
module _ {ℓ} {A : Type ℓ} (o : Ord A) where
  abbrev pub option_cmp : Option A → Option A → Ordering
  option_cmp none none = Ordering.eq
  option_cmp none (some y) = Ordering.lt
  option_cmp (some x) none = Ordering.gt
  option_cmp (some x) (some y) = o.cmp x y

  pub option_cmp_eq : (x y : Option A) → option_cmp x y ≡ Ordering.eq → x ≡ y
  option_cmp_eq none none h = refl
  option_cmp_eq none (some y) h = ground arith
  option_cmp_eq (some x) none h = ground arith
  option_cmp_eq (some x) (some y) h = ap some (o.cmp_eq x y h)

  pub option_cmp-reverse : (x y : Option A) → option_cmp y x ≡ reverse (option_cmp x y)
  option_cmp-reverse none none = refl
  option_cmp-reverse none (some y) = refl
  option_cmp-reverse (some x) none = refl
  option_cmp-reverse (some x) (some y) = o.cmp_reverse x y

  pub option_cmp_trans :
      (x y z : Option A)
      → option_cmp x y ≡ Ordering.lt
      → option_cmp y z ≡ Ordering.lt
      → option_cmp x z ≡ Ordering.lt
  option_cmp_trans none none z h k = k
  option_cmp_trans none (some y) none h k = ground arith
  option_cmp_trans none (some y) (some z) h k = refl
  option_cmp_trans (some x) none z h k = ground arith
  option_cmp_trans (some x) (some y) none h k = ground arith
  option_cmp_trans (some x) (some y) (some z) h k = o.cmp_trans x y z h k

  abbrev pub option_ord : Ord (Option A)
  option_ord = record {
    cmp = option_cmp;
    cmp_eq = option_cmp_eq;
    cmp_reverse = option_cmp-reverse;
    cmp_trans = option_cmp_trans;
  }

-- An order taken from a key that determines the value.
module _ {ℓ κ} {A : Type ℓ} {B : Type κ} (o : Ord B) (key : A → B) where
  abbrev pub by_key : ((x y : A) → key x ≡ key y → x ≡ y) → Ord A
  by_key injective = record {
    cmp = λ x y. o.cmp (key x) (key y);
    cmp_eq = λ x y h. injective x y (o.cmp_eq (key x) (key y) h);
    cmp_reverse = λ x y. o.cmp_reverse (key x) (key y);
    cmp_trans = λ x y z. o.cmp_trans (key x) (key y) (key z);
  }
