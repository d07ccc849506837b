-- ===== src/Base/Float.antt =====
-- `f64`: the type and the operations that the program uses, as a parameter. `le` is `<=`, which is
-- false on a NaN; `decimal m k` is the literal m * 10^-k.
use mathlib.Core.Bool.{Bool}
use mathlib.Core.Path.{◌≡◌}
use Prim.Native.Nat.{ℕ}

pub record Float : Type 1 where
  pub F : Type 0
  pub add : F → F → F
  pub sub : F → F → F
  pub mul : F → F → F
  pub sqrt : F → F
  pub le : F → F → Bool
  pub decimal : (m k : ℕ) → F

-- IEEE 754: `a - b` and `b - a` differ in sign only, so their squares are one value.
abbrev pub SquaresAgree : Float → Type 0
SquaresAgree f = (a b : f.F) → f.mul (f.sub a b) (f.sub a b) ≡ f.mul (f.sub b a) (f.sub b a)
