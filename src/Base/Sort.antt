-- ===== src/Base/Sort.antt =====
-- `slice::sort` of the standard library, as an insertion sort over the element's `Ord`. The order
-- is total on distinct values, so every sorting algorithm returns this list.
use Prim.Native.Nat.{suc}
use mathlib.Core.Path.{◌≡◌, refl, ap₂, ◌∙◌}
use mathlib.Core.Logic.{inl, inr, ∥∥₁_elim}
use mathlib.Core.Bool.{Bool, true, false}
use mathlib.Core.List.{List, [], ◌∷◌, Perm, Permᴰ}
use mathlib.Core.List.Perm
use native.Mathlib.Omega.{arith}
use qenode.Base.Tests.{if◌then◌else◌, Bool-cases}
use qenode.Base.Lists.{length}
use qenode.Base.Order.{Ord, is_le, Ord-set, list_ord}

module _ {ℓ} {A : Type ℓ} ⦃o : Ord A⦄ where
  abbrev pub le : A → A → Bool
  le a b = is_le (o.cmp a b)

  pub insert : A → List A → List A
  insert x [] = x ∷ []
  insert x (y ∷ ys) = if le x y then x ∷ y ∷ ys else y ∷ insert x ys

  unfoldable pub sort : List A → List A
  unfolding insert
  sort [] = []
  sort (x ∷ xs) = insert x (sort xs)

  pub le_total : (a b : A) → le a b ≡ false → le b a ≡ true
  le_total a b h = ground (arith, o.cmp_reverse a b)

  pub le_antisymm : (a b : A) → le a b ≡ true → le b a ≡ true → a ≡ b
  le_antisymm a b h k = ground (arith, o.cmp_reverse a b, o.cmp_eq a b)

  pub le_trans : (a b c : A) → le a b ≡ true → le b c ≡ true → le a c ≡ true
  le_trans a b c h k = ground (arith, o.cmp_trans a b c, o.cmp_eq a b, o.cmp_eq b c)

  insert_comm : (x y : A) (l : List A) → insert x (insert y l) ≡ insert y (insert x l)
  unfolding insert
  insert_comm x y [] = ground (arith, le_total x y, le_antisymm x y)
  insert_comm x y (z ∷ l) =
      ground
        (arith, insert_comm x y l, le_total x y, le_antisymm x y, le_trans x y z, le_trans y x z)

  sort-eq_of_permᴰ : {xs ys : List A} → Permᴰ xs ys → sort xs ≡ sort ys
  unfolding sort
  sort-eq_of_permᴰ Permᴰ.nil = refl
  sort-eq_of_permᴰ (Permᴰ.cons e p) = ap₂ insert e (sort-eq_of_permᴰ p)
  sort-eq_of_permᴰ (Permᴰ.swap {a} {b} {l} e f) = cc (insert_comm a b (sort l))
  sort-eq_of_permᴰ (Permᴰ.trans p q) = sort-eq_of_permᴰ p ∙ sort-eq_of_permᴰ q

  -- Sorting forgets the order in which the elements came.
  pub sort-eq_of_perm : {xs ys : List A} → Perm xs ys → sort xs ≡ sort ys
  sort-eq_of_perm {xs} {ys} p =
      ∥∥₁_elim p (Ord-set (list_ord o) (sort xs) (sort ys)) sort-eq_of_permᴰ

  insert-perm : (x : A) (l : List A) → Perm (insert x l) (x ∷ l)
  unfolding insert
  insert-perm x [] = Perm.rfl
  insert-perm x (y ∷ l) = elim (Bool-cases (le x y)) [
    | inl h ↦ rw h Perm.rfl
    | inr h ↦ rw h (Perm.trans (Perm.cons y (insert-perm x l)) (Perm.swap x y l))
  ]

  pub sort-perm : (xs : List A) → Perm (sort xs) xs
  unfolding sort
  sort-perm [] = Perm.rfl
  sort-perm (x ∷ xs) = Perm.trans (insert-perm x (sort xs)) (Perm.cons x (sort-perm xs))

  abbrev pub IsBelow : A → List A → Type 0
  IsBelow a [] = Unit
  IsBelow a (x ∷ xs) = le a x ≡ true

  -- Every element is at most the next one.
  abbrev pub IsSorted : List A → Type 0
  IsSorted [] = Unit
  IsSorted (x ∷ xs) = IsBelow x xs × IsSorted xs

  insert-IsBelow : (a x : A) (l : List A) → le a x ≡ true → IsBelow a l → IsBelow a (insert x l)
  unfolding insert
  insert-IsBelow a x [] h b = h
  insert-IsBelow a x (y ∷ l) h b = ground arith

  insert-IsSorted : (x : A) (l : List A) → IsSorted l → IsSorted (insert x l)
  unfolding insert
  insert-IsSorted x [] s = (tt, tt)
  insert-IsSorted x (y ∷ l) s = elim (Bool-cases (le x y)) [
    | inl h ↦ rw h (h, s)
    | inr h ↦ rw h (insert-IsBelow y x l (le_total x y h) s.0, insert-IsSorted x l s.1)
  ]

  pub sort-IsSorted : (xs : List A) → IsSorted (sort xs)
  unfolding sort
  sort-IsSorted [] = tt
  sort-IsSorted (x ∷ xs) = insert-IsSorted x (sort xs) (sort-IsSorted xs)

  insert_of_IsBelow : (x : A) (l : List A) → IsBelow x l → insert x l ≡ x ∷ l
  unfolding insert
  insert_of_IsBelow x [] b = refl
  insert_of_IsBelow x (y ∷ l) b = rw b

  -- Sorting a sorted list changes nothing.
  pub sort_of_IsSorted : (xs : List A) → IsSorted xs → sort xs ≡ xs
  unfolding sort
  sort_of_IsSorted [] s = refl
  sort_of_IsSorted (x ∷ xs) s = rw (sort_of_IsSorted xs s.1) (insert_of_IsBelow x xs s.0)

  pub sort_idem : (xs : List A) → sort (sort xs) ≡ sort xs
  sort_idem xs = sort_of_IsSorted (sort xs) (sort-IsSorted xs)

  length-insert : (x : A) (l : List A) → length (insert x l) ≡ suc (length l)
  unfolding insert
  length-insert x [] = refl
  length-insert x (y ∷ l) = ground (arith, length-insert x l)

  pub length-sort : (xs : List A) → length (sort xs) ≡ length xs
  unfolding sort
  length-sort [] = refl
  length-sort (x ∷ xs) = omega (arith, length-insert x (sort xs), length-sort xs)
