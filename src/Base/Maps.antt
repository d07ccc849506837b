-- ===== src/Base/Maps.antt =====
-- `HashMap` and `HashSet` of the standard library, as association lists with distinct keys. The
-- list's order stands for the iteration order, which the program does not control.
use Prim.Native.Nat.{Ordering}
use mathlib.Core.Path.{◌≡◌, refl, subst, ◌∙◌}
use mathlib.Core.Logic.{◌↔◌, inl, inr}
use mathlib.Core.Bool.{Bool, true, false, ◌||◌}
use mathlib.Core.List.{List, [], ◌∷◌}
use mathlib.Core.Option.{Option, none, some}
use native.Mathlib.Omega.{arith}
use qenode.Base.Tests.{if◌then◌else◌, Bool-cases}
use qenode.Base.Order.{Ord, cmp_refl}

-- `Ordering::is_eq`
abbrev pub is_eq : Ordering → Bool
is_eq Ordering.lt = false
is_eq Ordering.eq = true
is_eq Ordering.gt = false

module _ {ℓ} {K : Type ℓ} ⦃o : Ord K⦄ where
  abbrev pub same : K → K → Bool
  same a b = is_eq (o.cmp a b)

  pub same_refl : (a : K) → same a a ≡ true
  same_refl a = rw (cmp_refl o a)

  pub same_iff : (a b : K) → (same a b ≡ true) ↔ (a ≡ b)
  same_iff a b =
      (λ h. o.cmp_eq a b (ground arith), λ e. subst (λ c. same a c ≡ true) e (same_refl a))

  pub same-false : (a b : K) → same b a ≡ false → same a b ≡ false
  same-false a b h = ground (arith, o.cmp_reverse b a)

  unfoldable pub contains : List K → K → Bool
  contains [] k = false
  contains (j ∷ ks) k = same j k || contains ks k

  -- `HashSet::insert`
  unfoldable pub add : K → List K → List K
  unfolding contains
  add k ks = if contains ks k then ks else k ∷ ks

  -- `HashSet::remove`
  unfoldable pub remove : K → List K → List K
  remove k [] = []
  remove k (j ∷ ks) = if same j k then remove k ks else j ∷ remove k ks

  pub contains-add : (k j : K) (ks : List K) → contains (add k ks) j ≡ (same k j || contains ks j)
  unfolding add contains
  contains-add k j ks = elim (Bool-cases (contains ks k)) [
    | inl h ↦ elim (Bool-cases (same k j)) [
      | inl e ↦ rw (h, e) (rw ((same_iff k j).0 e) at h)
      | inr e ↦ rw (h, e)
    ]
    | inr h ↦ rw (h, contains)
  ]

  pub contains-remove :
      (k j : K) (ks : List K)
      → contains (remove k ks) j ≡ (if same k j then false else contains ks j)
  unfolding remove contains
  contains-remove k j [] = ground arith
  contains-remove k j (i ∷ ks) =
      ground (arith, same_iff k j, same_iff i k, same_iff i j, contains-remove k j ks)

module _ {ℓ κ} {K : Type ℓ} {V : Type κ} ⦃o : Ord K⦄ where
  unfoldable pub lookup : K → List (K × V) → Option V
  lookup k [] = none
  lookup k ((j, v) ∷ m) = if same j k then some v else lookup k m

  unfoldable pub insert : K → V → List (K × V) → List (K × V)
  insert k v [] = (k, v) ∷ []
  insert k v ((j, w) ∷ m) = if same j k then (k, v) ∷ m else (j, w) ∷ insert k v m

  pub lookup-insert :
      (k j : K) (v : V) (m : List (K × V))
      → lookup j (insert k v m) ≡ (if same k j then some v else lookup j m)
  unfolding lookup insert
  lookup-insert k j v [] = refl
  lookup-insert k j v ((i, w) ∷ m) =
      ground (arith, same_iff k j, same_iff i k, same_iff i j, lookup-insert k j v m)

  -- No key stands twice, as in every `HashMap`.
  abbrev pub DistinctKeys : List (K × V) → Type κ
  DistinctKeys [] = Unit
  DistinctKeys ((k, v) ∷ m) = (lookup k m ≡ none) × DistinctKeys m

  pub insert-DistinctKeys :
      (k : K) (v : V) (m : List (K × V)) → DistinctKeys m → DistinctKeys (insert k v m)
  unfolding insert
  insert-DistinctKeys k v [] d = (unfold lookup in refl, tt)
  insert-DistinctKeys k v ((j, w) ∷ m) d = elim (Bool-cases (same j k)) [
    | inl e ↦ rw e (subst (λ i. lookup i m ≡ none) ((same_iff j k).0 e) d.0, d.1)
    | inr e ↦
        rw e (lookup-insert k j v m ∙ rw (same-false k j e) d.0, insert-DistinctKeys k v m d.1)
  ]
