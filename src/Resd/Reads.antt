-- ===== src/Resd/Reads.antt =====
-- Reads and seeks in a file whose remaining bytes are known.
use qenode.Base.{
  ℕ, ◌+◌, ◌-◌, ◌^◌, ◌≤◌, ◌<◌, ◌≡◌, refl, ◌∙◌, ap, false, some, List, ◌++◌, arith, ltb, lt→ltb,
  le→leb, length, drop, subst,
}
use qenode.Base.Bytes.{
  le_bytes, read_bytes, read_le-le_bytes, read_bytes-append, drop-append, drop-add, length-le_bytes,
}
use qenode.Resd.Parser.{File, left, read_word, read_exact, seek}

-- `f`, `n` bytes further on
abbrev pub moved : ℕ → File → File
moved n f = record f { pos = f.pos + n }

pub left-moved :
    (n : ℕ) (f : File) (xs ys : List ℕ) → left f ≡ xs ++ ys → length xs ≡ n → left (moved n f) ≡ ys
left-moved n f xs ys e h = drop-add f.pos n f.bytes ∙ ap (drop n) e ∙ drop-append n xs ys h

pub read_word-left :
    (k v : ℕ) (f : File) (ys : List ℕ)
    → left f ≡ le_bytes k v ++ ys
    → v < 256 ^ k
    → read_word k f ≡ some (v, moved k f)
unfolding read_word
read_word-left k v f ys e h = rw (e, read_le-le_bytes k v ys h) refl

pub left-read_word :
    (k v : ℕ) (f : File) (ys : List ℕ) → left f ≡ le_bytes k v ++ ys → left (moved k f) ≡ ys
left-read_word k v f ys e = left-moved k f (le_bytes k v) ys e (length-le_bytes k v)

pub read_exact-left :
    (n : ℕ) (f : File) (xs ys : List ℕ)
    → left f ≡ xs ++ ys
    → length xs ≡ n
    → read_exact n f ≡ some (xs, moved n f)
unfolding read_exact
read_exact-left n f xs ys e h =
    let read = subst (λ k. read_bytes k (xs ++ ys) ≡ some (xs, ys)) h (read_bytes-append xs ys) in
    rw (e, read) refl

pub seek-moved : (x : ℕ) (f : File) → f.pos + x < 2 ^ 63 → seek x f ≡ some (moved x f)
unfolding seek
seek-moved x f h = simp (lt→ltb x (2 ^ 63) (omega (arith, h)), lt→ltb (f.pos + x) (2 ^ 63) h) refl

-- A seek by the 64 bits of a negative number
pub seek-back :
    (n : ℕ) (f : File)
    → 0 < n
    → n ≤ f.pos
    → n ≤ 2 ^ 63
    → seek (2 ^ 64 - n) f ≡ some (record f { pos = f.pos - n })
unfolding seek
seek-back n f pos h small =
    let far : ltb (2 ^ 64 - n) (2 ^ 63) ≡ false = ground (arith, small) in
    let back : 2 ^ 64 - (2 ^ 64 - n) ≡ n = omega (arith, small) in
    simp (far, back, le→leb n f.pos h) refl
