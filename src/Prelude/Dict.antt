-- ===== src/Prelude/Dict.antt =====
-- A Python dict with integer keys, as an association list in order of insertion.
use Prim.Native.Nat.{ℕ}
use mathlib.Core.Path.{◌≡◌, refl, sym}
use mathlib.Core.Logic.{◌≢◌, ◌⊎◌, inl, inr}
use mathlib.Core.Bool.{Bool, true, false}
use mathlib.Core.Option.{Option, none, some}
use mathlib.Core.List.{List, [], ◌∷◌}
use native.Mathlib.Omega.{arith}
use package.hymer_connect_ha.Prelude.Tests.{◌==◌, if◌then◌else◌, Bool-cases, ==→eq, ==_refl}

abbrev pub Dict {ℓ} : Type ℓ → Type ℓ
Dict V = List (ℕ × V)

module _ {ℓ} {V : Type ℓ} where
  -- `d.get(k)`
  unfoldable pub get : ℕ → Dict V → Option V
  get k [] = none
  get k ((j, v) ∷ d) = if j == k then some v else get k d

  -- `d[k] = v`
  unfoldable pub put : ℕ → V → Dict V → Dict V
  put k v [] = (k, v) ∷ []
  put k v ((j, w) ∷ d) = if j == k then (j, v) ∷ d else (j, w) ∷ put k v d

  -- `d.pop(k, None)`
  unfoldable pub pop : ℕ → Dict V → Dict V
  pop k [] = []
  pop k ((j, v) ∷ d) = let rest = pop k d in if j == k then rest else (j, v) ∷ rest

  pub get-put :
      (i k : ℕ) (v : V) (d : Dict V) → get i (put k v d) ≡ (if k == i then some v else get i d)
  unfolding get put
  get-put i k v [] = refl
  get-put i k v ((j, w) ∷ d) = ground (arith, get-put i k v d)

  pub get-pop : (i k : ℕ) (d : Dict V) → get i (pop k d) ≡ (if k == i then none else get i d)
  unfolding get pop
  get-pop i k [] = ground arith
  get-pop i k ((j, w) ∷ d) = ground (arith, get-pop i k d)

-- `k in ks`
unfoldable pub contains : ℕ → List ℕ → Bool
contains k [] = false
contains k (j ∷ ks) = let rest = contains k ks in if j == k then true else rest

module _ {ℓ} {V : Type ℓ} where
  -- Where an entry of a changed dict comes from.
  pub get-pop_inv : (i k : ℕ) (d : Dict V) {v : V} → get i (pop k d) ≡ some v → get i d ≡ some v
  get-pop_inv i k d h = ground (arith, get-pop i k d)

  pub get-put_inv :
      (i k : ℕ) (w : V) (d : Dict V) {v : V}
      → get i (put k w d) ≡ some v
      → ((i ≡ k) × (v ≡ w)) ⊎ ((k ≢ i) × (get i d ≡ some v))
  get-put_inv i k w d {v} h = elim (Bool-cases (k == i)) [
    | inl e ↦ inl (sym (==→eq k i e), cc (get-put i k w d, e, h))
    | inr e ↦ inr ((λ same. cc (e, ==_refl i, same)), ground (arith, get-put i k w d))
  ]

  pub get-put_same : (k : ℕ) (v : V) (d : Dict V) → get k (put k v d) ≡ some v
  get-put_same k v d = ground (arith, get-put k k v d)

  pub get-pop_same : (k : ℕ) (d : Dict V) → get k (pop k d) ≡ none
  get-pop_same k d = ground (arith, get-pop k k d)
