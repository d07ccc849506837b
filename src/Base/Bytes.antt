-- ===== src/Base/Bytes.antt =====
-- Bytes as numbers below 256, little-endian words of any width, and `Cursor` reads.
use Prim.Native.Nat.{ℕ, zero, suc, ◌+◌, ◌*◌, ◌/◌, ◌%◌, ◌^◌, ◌<◌}
use Prim.Native.Char.{code}
use Prim.Native.String.{String}
use mathlib.Core.Path.{◌≡◌, refl, ap, sym, ◌∙◌}
use mathlib.Core.List.{List, [], ◌∷◌, ◌++◌}
use mathlib.Core.Option
use mathlib.Core.Option.{Option, none, some}
use native.Mathlib.Nat.{pow-suc, zero-add, suc-add}
use native.Mathlib.Omega.{arith}
use mathlib.Core.Bool.{Bool, true, false, ◌&&◌}
use qenode.Base.Tests.{◌==◌}
use qenode.Base.Lists.{length, drop}

-- A `String` is its UTF-8 bytes.
abbrev pub Text : Type 0
Text = List ℕ

-- The bytes of an ASCII literal.
abbrev pub ascii : String → Text
ascii String.[] = []
ascii (String.◌∷◌ c s) = code c ∷ ascii s

-- `sub` is a prefix of the text: `text.starts_with(sub)`.
unfoldable pub starts_with : (sub text : Text) → Bool
starts_with [] text = true
starts_with (c ∷ cs) [] = false
starts_with (c ∷ cs) (d ∷ ds) = c == d && starts_with cs ds

-- `to_le_bytes` of a word of `k` bytes.
unfoldable pub le_bytes : ℕ → ℕ → List ℕ
le_bytes zero v = []
le_bytes (suc k) v = (v % 256) ∷ le_bytes k (v / 256)

-- A read of `k` bytes from the front of what is left: the word and the rest.
unfoldable pub read_le : ℕ → List ℕ → Option (ℕ × List ℕ)
read_le zero bs = some (0, bs)
read_le (suc k) [] = none
read_le (suc k) (b ∷ bs) = Option.map (λ (v, rest). (b + 256 * v, rest)) (read_le k bs)

-- `read_exact` of `n` bytes.
unfoldable pub read_bytes : ℕ → List ℕ → Option (List ℕ × List ℕ)
read_bytes zero bs = some ([], bs)
read_bytes (suc n) [] = none
read_bytes (suc n) (b ∷ bs) = Option.map (λ (d, rest). (b ∷ d, rest)) (read_bytes n bs)

pub length-le_bytes : (k v : ℕ) → length (le_bytes k v) ≡ k
unfolding le_bytes
length-le_bytes zero v = refl
length-le_bytes (suc k) v = ap suc (length-le_bytes k (v / 256))

-- Reading a word back from its bytes, whatever follows them.
pub read_le-le_bytes :
    (k v : ℕ) (rest : List ℕ) → v < 256 ^ k → read_le k (le_bytes k v ++ rest) ≡ some (v, rest)
unfolding read_le le_bytes
read_le-le_bytes zero v rest h = ground arith
read_le-le_bytes (suc k) v rest h =
    rw (read_le-le_bytes k (v / 256) rest (omega (arith, pow-suc 256 k))) (ground arith)

pub read_bytes-append : (d rest : List ℕ) → read_bytes (length d) (d ++ rest) ≡ some (d, rest)
unfolding read_bytes
read_bytes-append [] rest = refl
read_bytes-append (b ∷ d) rest = rw (read_bytes-append d rest)

pub drop-append : (n : ℕ) (xs ys : List ℕ) → length xs ≡ n → drop n (xs ++ ys) ≡ ys
drop-append zero [] ys h = refl
drop-append zero (x ∷ xs) ys h = absurd (omega arith)
drop-append (suc n) [] ys h = absurd (omega arith)
drop-append (suc n) (x ∷ xs) ys h = drop-append n xs ys (omega arith)

drop-nil : (k : ℕ) → drop {A = ℕ} k [] ≡ []
drop-nil zero = refl
drop-nil (suc k) = refl

pub drop-add : (n k : ℕ) (xs : List ℕ) → drop (n + k) xs ≡ drop k (drop n xs)
drop-add zero k xs = ap (λ m. drop m xs) (zero-add k)
drop-add (suc n) k [] = drop-nil (suc n + k) ∙ sym (drop-nil k)
drop-add (suc n) k (x ∷ xs) = ap (λ m. drop m (x ∷ xs)) (suc-add n k) ∙ drop-add n k xs
