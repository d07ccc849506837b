-- ===== src/Base/Decimal.antt =====
-- Decimal text: `ToString` and `FromStr` of the unsigned integers.
use mathlib.Core.List.{[], ◌∷◌}
use native.Mathlib.Nat.{pow-suc}
use qenode.Base.{
  ℕ, zero, suc, ◌+◌, ◌-◌, ◌*◌, ◌/◌, ◌%◌, ◌^◌, ◌≤◌, ◌<◌, ◌≡◌, refl, ap, ◌∙◌, Bool, ◌&&◌, inl, inr,
  Option, none, some, arith, ltb, leb, ◌==◌, if◌then◌else◌, Bool-cases, lt→ltb, ltb→lt,
}
use qenode.Base.Bytes.{Text}

abbrev pub is_digit : ℕ → Bool
is_digit c = leb b'0' c && leb c b'9'

-- The loop of `from_str_radix`: a character that is no digit, and a value that reaches the limit of
-- the type (`limit` is one more than its maximum), are errors.
unfoldable pub parse_digits : (limit acc : ℕ) → Text → Option ℕ
parse_digits limit acc [] = some acc
parse_digits limit acc (c ∷ cs) =
    let next = acc * 10 + (c - b'0') in
    let rest = parse_digits limit next cs in if is_digit c && ltb next limit then rest else none

unfoldable pub parse_after_sign : ℕ → Text → Option ℕ
parse_after_sign limit [] = none
parse_after_sign limit (c ∷ cs) = parse_digits limit 0 (c ∷ cs)

-- `str::parse` for an unsigned type: the empty text and a lone sign are errors, and one `+` is
-- allowed.
unfoldable pub parse_unsigned : ℕ → Text → Option ℕ
unfolding parse_digits parse_after_sign
parse_unsigned limit [] = none
parse_unsigned limit (c ∷ cs) =
    if c == b'+' then parse_after_sign limit cs else parse_digits limit 0 (c ∷ cs)

unfoldable pub to_digits : (rounds n : ℕ) → Text → Text
to_digits zero n acc = acc
to_digits (suc f) n acc =
    let more = to_digits f (n / 10) ((b'0' + n % 10) ∷ acc) in
    if ltb n 10 then (b'0' + n) ∷ acc else more

-- `to_string`; twenty digits are enough for every `u64`.
unfoldable pub to_string : ℕ → Text
unfolding to_digits
to_string n = to_digits 20 n []

parse_digits-step :
    (limit acc d : ℕ) (cs : Text)
    → d < 10
    → acc * 10 + d < limit
    → parse_digits limit acc ((b'0' + d) ∷ cs) ≡ parse_digits limit (acc * 10 + d) cs
unfolding parse_digits
parse_digits-step limit acc d cs h k =
    let e : acc * 10 + (b'0' + d - b'0') ≡ acc * 10 + d = omega arith in rw e (ground arith)

parse_first_digit :
    (limit n : ℕ) (cs : Text)
    → n < 10
    → n < limit
    → parse_digits limit 0 ((b'0' + n) ∷ cs) ≡ parse_digits limit n cs
parse_first_digit limit n cs h k =
    let e : 0 * 10 + n ≡ n = omega arith in
    parse_digits-step limit 0 n cs h (omega arith) ∙ ap (λ m. parse_digits limit m cs) e

parse_digits-to_digits :
    (f limit n : ℕ) (acc : Text)
    → n < 10 ^ suc f
    → n < limit
    → parse_digits limit 0 (to_digits (suc f) n acc) ≡ parse_digits limit n acc
unfolding to_digits
parse_digits-to_digits zero limit n acc h k = rw (lt→ltb n 10 h) (parse_first_digit limit n acc h k)
parse_digits-to_digits (suc f) limit n acc h k = elim (Bool-cases (ltb n 10)) [
  | inl small ↦ rw small (parse_first_digit limit n acc (ltb→lt n 10 small) k)
  | inr large ↦
      let e : n / 10 * 10 + n % 10 ≡ n = omega arith in
      rw large (
        parse_digits-to_digits f limit (n / 10) ((b'0' + n % 10) ∷ acc)
          (omega (arith, pow-suc 10 (suc f))) (omega arith)
        ∙ parse_digits-step limit (n / 10) (n % 10) acc (omega arith) (omega arith)
        ∙ rw e)
]

-- A text that begins with a digit.
abbrev StartsWithDigit : Text → Type 0
StartsWithDigit [] = ⊥
StartsWithDigit (c ∷ cs) = (b'0' ≤ c) × (c ≤ b'9')

to_digits-StartsWithDigit :
    (f n : ℕ) (acc : Text) → StartsWithDigit acc → StartsWithDigit (to_digits f n acc)
unfolding to_digits
to_digits-StartsWithDigit zero n acc h = h
to_digits-StartsWithDigit (suc f) n acc h = elim (Bool-cases (ltb n 10)) [
  | inl small ↦ rw small (omega (arith, ltb→lt n 10 small))
  | inr large ↦
      rw large (to_digits-StartsWithDigit f (n / 10) ((b'0' + n % 10) ∷ acc) (omega arith))
]

to_digits-starts : (f n : ℕ) → n < 10 ^ suc f → StartsWithDigit (to_digits (suc f) n [])
unfolding to_digits
to_digits-starts zero n h = rw (lt→ltb n 10 h) (omega arith)
to_digits-starts (suc f) n h = elim (Bool-cases (ltb n 10)) [
  | inl small ↦ rw small (omega (arith, ltb→lt n 10 small))
  | inr large ↦
      rw large (to_digits-StartsWithDigit (suc f) (n / 10) ((b'0' + n % 10) ∷ []) (omega arith))
]

parse_unsigned_digits :
    (limit : ℕ) (t : Text) → StartsWithDigit t → parse_unsigned limit t ≡ parse_digits limit 0 t
unfolding parse_unsigned parse_digits
parse_unsigned_digits limit [] h = absurd h
parse_unsigned_digits limit (c ∷ cs) h = ground arith

-- A `u64` written in decimal is parsed back, by every type that can hold it.
pub parse_unsigned-to_string :
    (limit n : ℕ) → n < 10 ^ 20 → n < limit → parse_unsigned limit (to_string n) ≡ some n
unfolding to_string
parse_unsigned-to_string limit n h k =
    parse_unsigned_digits limit (to_digits 20 n []) (to_digits-starts 19 n h)
    ∙ parse_digits-to_digits 19 limit n [] h k
    ∙ unfold parse_digits in refl

-- A text of digits only.
abbrev pub AllDigits : Text → Type 0
AllDigits [] = Unit
AllDigits (c ∷ cs) = (b'0' ≤ c) × (c ≤ b'9') × AllDigits cs

to_digits-AllDigits : (f n : ℕ) (acc : Text) → AllDigits acc → AllDigits (to_digits f n acc)
unfolding to_digits
to_digits-AllDigits zero n acc h = h
to_digits-AllDigits (suc f) n acc h =
    let more =
      to_digits-AllDigits f (n / 10) ((b'0' + n % 10) ∷ acc) (omega arith, omega arith, h) in
    elim (Bool-cases (ltb n 10)) [
      | inl small ↦ let lt = ltb→lt n 10 small in rw small (omega (arith, lt), omega (arith, lt), h)
      | inr large ↦ rw large more
    ]

pub to_string-AllDigits : (n : ℕ) → AllDigits (to_string n)
unfolding to_string
to_string-AllDigits n = to_digits-AllDigits 20 n [] tt
