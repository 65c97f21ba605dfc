-- ===== src/Prelude/Leaves.antt =====
-- A reader has ended, and leaves no more than it was given.
use Prim.Native.Nat.{ℕ, ◌≤◌}
use mathlib.Core.Logic.{◌≢◌}
use mathlib.Core.Bool.{Bool, true, false}
use mathlib.Core.List.{List, []}
use native.Mathlib.Omega.{arith}
use package.hymer_connect_ha.Prelude.Lists.{length}
use package.hymer_connect_ha.Prelude.Tests.{if◌then◌else◌}
use package.hymer_connect_ha.Prelude.Result.{Result, ok, err, stuck, ◌>>=◌}

-- `r` has ended, and if with a value then one that leaves at most `n` bytes.
abbrev pub Leaves {ℓ} : {A : Type ℓ} → (A → List ℕ) → ℕ → Result A → Type 0
Leaves left n (ok a) = length (left a) ≤ n
Leaves left n (err e) = Unit {0}
Leaves left n stuck = ⊥

abbrev pub second {ℓ} : {A : Type ℓ} → A × List ℕ → List ℕ
second p = p.1

abbrev pub itself : List ℕ → List ℕ
itself bytes = bytes

module _ {ℓ κ} {A : Type ℓ} {B : Type κ} where
  pub Leaves-bind :
      (left : A → List ℕ) (left' : B → List ℕ) (n m : ℕ) (r : Result A) (f : A → Result B)
      → Leaves left n r
      → ((a : A) → length (left a) ≤ n → Leaves left' m (f a))
      → Leaves left' m (r >>= f)
  Leaves-bind left left' n m (ok a) f h k = k a h
  Leaves-bind left left' n m (err e) f h k = tt
  Leaves-bind left left' n m stuck f h k = absurd h

module _ {ℓ} {A : Type ℓ} where
  pub Leaves-mono :
      (left : A → List ℕ) (n m : ℕ) (r : Result A) → n ≤ m → Leaves left n r → Leaves left m r
  Leaves-mono left n m (ok a) le h = omega arith
  Leaves-mono left n m (err e) le h = tt
  Leaves-mono left n m stuck le h = h

  pub Leaves-ne-stuck : (left : A → List ℕ) (n : ℕ) (r : Result A) → Leaves left n r → r ≢ stuck
  Leaves-ne-stuck left n (ok a) h e = cc
  Leaves-ne-stuck left n (err x) h e = cc
  Leaves-ne-stuck left n stuck h e = absurd h

  pub Leaves-if :
      (left : A → List ℕ) (n : ℕ) (b : Bool) (x y : Result A)
      → Leaves left n x
      → Leaves left n y
      → Leaves left n (if b then x else y)
  Leaves-if left n true x y hx hy = hx
  Leaves-if left n false x y hx hy = hy

abbrev pub nothing {ℓ} : {A : Type ℓ} → A → List ℕ
nothing a = []
