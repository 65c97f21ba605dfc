-- ===== src/Prelude/Result.antt =====
-- Functions that may raise. `stuck` is no Python value: a loop of the model ran out of fuel.
use mathlib.Core.Path.{◌≡◌}

-- The classes of exception that the modelled code raises.
pub data Error : Type 0 where
  value_error overflow_error transport_error timeout_error tls_error : Error

pub data Result {ℓ} (A : Type ℓ) : Type ℓ where
  ok : A → Result A
  err : Error → Result A
  stuck : Result A

infixl 5 ◌>>=◌
abbrev pub ◌>>=◌ {ℓ κ} : {A : Type ℓ} {B : Type κ} → Result A → (A → Result B) → Result B
ok a >>= f = f a
err e >>= f = err e
stuck >>= f = stuck

pub ok-injective {ℓ} : {A : Type ℓ} {a b : A} → ok a ≡ ok b → a ≡ b
ok-injective e = cc
