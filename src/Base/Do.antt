-- ===== src/Base/Do.antt =====
-- Chains of fallible reads: the monad of `Option`.
use mathlib.Core.Option.{Option, none, some}
use mathlib.Core.Path.{◌≡◌, refl}

infixl 5 ◌>>=◌
abbrev pub ◌>>=◌ {ℓ κ} : {A : Type ℓ} {B : Type κ} → Option A → (A → Option B) → Option B
none >>= f = none
some a >>= f = f a

pub some->>= {ℓ κ} : {A : Type ℓ} {B : Type κ} (a : A) (f : A → Option B) → (some a >>= f) ≡ f a
some->>= a f = refl
