-- ===== src/SlotActions/Meaning.antt =====
-- What the steps of serialize_slot_action, slot_actions.py, and reverse_transform, discovery.py, come to,
-- said without them: by the numbers, texts and wire modes of the metadata.
use hymer_connect_ha.Prelude.{
  ◌||◌, zero, ◌-◌, ℕ, suc, ◌+◌, ◌*◌, Bool, true, false, Option, none, some, List, ◌≡◌, ◌≢◌, ◌⊎◌,
  inl, inr, refl, arith, leb, if◌then◌else◌, Bool-cases,
}
use mathlib.Core.Path.{subst}
use hymer_connect_ha.Prelude.Int.{ℤ, pos, negsuc}
use hymer_connect_ha.Prelude.Text.{codes, text_eq, text_in, text_eq→eq}
use hymer_connect_ha.SlotActions.{
  Arithmetic, Value, flag, integer, real, text, other, Transform, div10, div100, div1000, div3600,
  invert100, unknown_transform, WireMode, read_only, read_write, write_only, Checked, accepted,
  is_writable, true_texts, false_texts, times_int, hundred_minus_int, bit_of_int, reverse_int,
  reverse_real, reverse_flag, reverse_transform, float_of_int, float_of, not_below, not_above,
  bit_of_text, bit_of, is_number,
}

-- The factor of a transform that divides.
pub data Divides : Transform → ℕ → Type 0 where
  by_10 : Divides div10 10
  by_100 : Divides div100 100
  by_1000 : Divides div1000 1000
  by_3600 : Divides div3600 3600

-- `n * k` is m.
pub data IsProduct : ℤ → ℕ → ℤ → Type 0 where
  naturals : {n k : ℕ} → IsProduct (pos n) k (pos (n * k))
  negatives : {n k m : ℕ} → suc m ≡ suc n * k → IsProduct (negsuc n) k (negsuc m)

-- `100 - n` is m.
pub data IsRest : ℤ → ℤ → Type 0 where
  up_to_100 : {n m : ℕ} → n + m ≡ 100 → IsRest (pos n) (pos m)
  above_100 : {n m : ℕ} → n ≡ 100 + suc m → IsRest (pos n) (negsuc m)
  below_0 : {n m : ℕ} → m ≡ 100 + suc n → IsRest (negsuc n) (pos m)

pub data MeansOn : List ℕ → Type 0 where
  on : MeansOn (codes "ON")
  truth : MeansOn (codes "TRUE")
  yes : MeansOn (codes "YES")
  open_text : MeansOn (codes "OPEN")
  unlocked : MeansOn (codes "UNLOCKED")

pub data MeansOff : List ℕ → Type 0 where
  off : MeansOff (codes "OFF")
  falsity : MeansOff (codes "FALSE")
  no : MeansOff (codes "NO")
  close : MeansOff (codes "CLOSE")
  closed : MeansOff (codes "CLOSED")
  locked : MeansOff (codes "LOCKED")

module _ {Float : Type 0} where
  -- A value that counts as an int.
  pub data IsInt : Value Float → ℤ → Type 0 where
    an_int : {n : ℤ} → IsInt (integer n) n
    a_true : IsInt (flag true) (pos 1)
    a_false : IsInt (flag false) (pos 0)

module _ {Float : Type 0} (a : Arithmetic Float) where
  -- The wire value of a user's value: it is multiplied by what the transform divides by, or
  -- subtracted from 100; what is no number, or has no such transform, stays as it is.
  pub data Reversed : Value Float → Option Transform → Value Float → Type 0 where
    untouched : {v : Value Float} → Reversed v none v
    unknown : {v : Value Float} → Reversed v (some unknown_transform) v
    of_text : {s : List ℕ} {t : Transform} → Reversed (text s) (some t) (text s)
    of_other : {t : Transform} → Reversed other (some t) other
    scaled :
        {v : Value Float} {t : Transform} {k : ℕ} {n m : ℤ}
        → Divides t k
        → IsInt v n
        → IsProduct n k m
        → Reversed v (some t) (integer m)
    inverted :
        {v : Value Float} {n m : ℤ}
        → IsInt v n
        → IsRest n m
        → Reversed v (some invert100) (integer m)
    real_scaled :
        {x : Float} {t : Transform} {k : ℕ}
        → Divides t k
        → Reversed (real x) (some t) (real (a.times x k))
    real_inverted : {x : Float} → Reversed (real x) (some invert100) (real (a.hundred_minus x))

  -- The Boolean that a value stands for.
  pub data StandsFor (upper : List ℕ → List ℕ) : Value Float → Bool → Type 0 where
    itself : {b : Bool} → StandsFor upper (flag b) b
    one : StandsFor upper (integer (pos 1)) true
    zero_int : StandsFor upper (integer (pos 0)) false
    real_one : {x : Float} → a.is_one x ≡ true → StandsFor upper (real x) true
    real_zero : {x : Float} → a.is_zero x ≡ true → StandsFor upper (real x) false
    on_text : {s : List ℕ} → MeansOn (upper s) → StandsFor upper (text s) true
    off_text : {s : List ℕ} → MeansOff (upper s) → StandsFor upper (text s) false

  -- `float(v)` is x.
  pub data IsFloat : Value Float → Float → Type 0 where
    a_float : {x : Float} → IsFloat (real x) x
    of_int : {v : Value Float} {n : ℤ} {x : Float} → IsInt v n → a.of_int n ≡ some x → IsFloat v x

  -- A number that is no Boolean.
  pub data IsNumber : Value Float → Type 0 where
    number_int : {n : ℤ} → IsNumber (integer n)
    number_real : {x : Float} → IsNumber (real x)

  -- x is not below a minimum that is given, and not above a maximum that is given.
  abbrev pub AtLeast : Option Float → Float → Type 0
  AtLeast minimum x = (minimum ≡ none) ⊎ ((m : Float) × (minimum ≡ some m) × (a.below x m ≡ false))

  abbrev pub AtMost : Option Float → Float → Type 0
  AtMost maximum x = (maximum ≡ none) ⊎ ((m : Float) × (maximum ≡ some m) × (a.below m x ≡ false))

  pub not_below-AtLeast :
      (x : Float) (minimum : Option Float) → not_below a x minimum ≡ true → AtLeast minimum x
  unfolding not_below
  not_below-AtLeast x none h = inl refl
  not_below-AtLeast x (some m) h = inr (m, refl, ground (arith, h))

  pub not_above-AtMost :
      (x : Float) (maximum : Option Float) → not_above a x maximum ≡ true → AtMost maximum x
  unfolding not_above
  not_above-AtMost x none h = inl refl
  not_above-AtMost x (some m) h = inr (m, refl, ground (arith, h))

  pub is_number-IsNumber : (v : Value Float) → is_number a v ≡ true → IsNumber v
  unfolding is_number
  is_number-IsNumber (integer n) h = number_int
  is_number-IsNumber (real x) h = number_real
  is_number-IsNumber (flag b) h = ground (arith, h)
  is_number-IsNumber (text s) h = ground (arith, h)
  is_number-IsNumber other h = ground (arith, h)

  float_of_int-inv : (n : ℤ) (x : Float) → float_of_int a n ≡ accepted x → a.of_int n ≡ some x
  unfolding float_of_int
  float_of_int-inv n x h = found (a.of_int n) h
    where
      found :
          (o : Option Float)
          → elim o as (λ _. Checked Float) [ none ↦ Checked.raised_other | some y ↦ accepted y ]
            ≡ accepted x
          → o ≡ some x
      found none h = cc
      found (some y) h = cc

  pub float_of-IsFloat : (v : Value Float) (x : Float) → float_of a v ≡ accepted x → IsFloat v x
  unfolding float_of
  float_of-IsFloat (flag true) x h = of_int a_true (float_of_int-inv (pos 1) x h)
  float_of-IsFloat (flag false) x h = of_int a_false (float_of_int-inv (pos 0) x h)
  float_of-IsFloat (integer n) x h = of_int an_int (float_of_int-inv n x h)
  float_of-IsFloat (real y) x h = subst (IsFloat (real y)) (cc h) a_float
  float_of-IsFloat (text s) x h = cc
  float_of-IsFloat other x h = cc

  times_int-IsProduct : (n : ℤ) (j : ℕ) → IsProduct n (suc j) (times_int n (suc j))
  unfolding times_int
  times_int-IsProduct (pos n) j = naturals
  times_int-IsProduct (negsuc n) j = negatives (positive n j)
    where
      positive : (n j : ℕ) → suc ((n + 1) * suc j - 1) ≡ suc n * suc j
      positive n j = grind arith

  hundred_minus_int-IsRest : (n : ℤ) → IsRest n (hundred_minus_int n)
  unfolding hundred_minus_int
  hundred_minus_int-IsRest (negsuc n) = below_0 (omega arith)
  hundred_minus_int-IsRest (pos n) = elim (Bool-cases (leb n 100)) [
    | inl e ↦ rw e (up_to_100 (small n e))
    | inr e ↦ rw e (above_100 (large n e))
  ]
    where
      small : (n : ℕ) → leb n 100 ≡ true → n + (100 - n) ≡ 100
      small n e = ground (arith, e)

      large : (n : ℕ) → leb n 100 ≡ false → n ≡ 100 + suc (n - 101)
      large n e = ground (arith, e)

  -- An int under a transform, whichever value it comes from.
  int-Reversed :
      (v : Value Float) (n : ℤ) (t : Transform)
      → IsInt v n
      → t ≢ unknown_transform
      → Reversed v (some t) (reverse_int a n t)
  unfolding reverse_int
  int-Reversed v n div10 i known = scaled by_10 i (times_int-IsProduct n 9)
  int-Reversed v n div100 i known = scaled by_100 i (times_int-IsProduct n 99)
  int-Reversed v n div1000 i known = scaled by_1000 i (times_int-IsProduct n 999)
  int-Reversed v n div3600 i known = scaled by_3600 i (times_int-IsProduct n 3599)
  int-Reversed v n invert100 i known = inverted i (hundred_minus_int-IsRest n)
  int-Reversed v n unknown_transform i known = absurd (known refl)

  integer-Reversed : (n : ℤ) (t : Transform) → Reversed (integer n) (some t) (reverse_int a n t)
  unfolding reverse_int
  integer-Reversed n unknown_transform = unknown
  integer-Reversed n div10 = int-Reversed (integer n) n div10 an_int (λ e. cc)
  integer-Reversed n div100 = int-Reversed (integer n) n div100 an_int (λ e. cc)
  integer-Reversed n div1000 = int-Reversed (integer n) n div1000 an_int (λ e. cc)
  integer-Reversed n div3600 = int-Reversed (integer n) n div3600 an_int (λ e. cc)
  integer-Reversed n invert100 = int-Reversed (integer n) n invert100 an_int (λ e. cc)

  flag-IsInt : (b : Bool) → IsInt {Float = Float} (flag b) (if b then pos 1 else pos 0)
  flag-IsInt true = a_true
  flag-IsInt false = a_false

  flag-Reversed : (b : Bool) (t : Transform) → Reversed (flag b) (some t) (reverse_flag a b t)
  unfolding reverse_flag
  flag-Reversed b unknown_transform = unknown
  flag-Reversed b div10 = int-Reversed (flag b) _ div10 (flag-IsInt b) (λ e. cc)
  flag-Reversed b div100 = int-Reversed (flag b) _ div100 (flag-IsInt b) (λ e. cc)
  flag-Reversed b div1000 = int-Reversed (flag b) _ div1000 (flag-IsInt b) (λ e. cc)
  flag-Reversed b div3600 = int-Reversed (flag b) _ div3600 (flag-IsInt b) (λ e. cc)
  flag-Reversed b invert100 = int-Reversed (flag b) _ invert100 (flag-IsInt b) (λ e. cc)

  real-Reversed : (x : Float) (t : Transform) → Reversed (real x) (some t) (reverse_real a x t)
  unfolding reverse_real
  real-Reversed x div10 = real_scaled by_10
  real-Reversed x div100 = real_scaled by_100
  real-Reversed x div1000 = real_scaled by_1000
  real-Reversed x div3600 = real_scaled by_3600
  real-Reversed x invert100 = real_inverted
  real-Reversed x unknown_transform = unknown

  pub reverse_transform-Reversed :
      (v : Value Float) (t : Option Transform) → Reversed v t (reverse_transform a v t)
  unfolding reverse_transform
  reverse_transform-Reversed v none = untouched
  reverse_transform-Reversed (flag b) (some t) = flag-Reversed b t
  reverse_transform-Reversed (integer n) (some t) = integer-Reversed n t
  reverse_transform-Reversed (real x) (some t) = real-Reversed x t
  reverse_transform-Reversed (text s) (some t) = of_text
  reverse_transform-Reversed other (some t) = of_other

  -- A text that is the first of a list, or else among the rest.
  found_or :
      (P : List ℕ → Type 0) (s : List ℕ) (same rest : Bool) (t : List ℕ)
      → text_eq t s ≡ same
      → P t
      → (same || rest) ≡ true
      → (rest ≡ true → P s)
      → P s
  found_or P s true rest t e p h later = subst P (text_eq→eq t s e) p
  found_or P s false rest t e p h later = later h

  in_true-MeansOn : (s : List ℕ) → text_in s true_texts ≡ true → MeansOn s
  unfolding text_in
  in_true-MeansOn s h = found_or MeansOn s (text_eq (codes "ON") s) _ (codes "ON") refl on h (λ h1.
      found_or MeansOn s (text_eq (codes "TRUE") s) _ (codes "TRUE") refl truth h1 (λ h2.
        found_or MeansOn s (text_eq (codes "YES") s) _ (codes "YES") refl yes h2 (λ h3.
          found_or MeansOn s (text_eq (codes "OPEN") s) _ (codes "OPEN") refl open_text h3 (λ h4.
            found_or MeansOn s (text_eq (codes "UNLOCKED") s) _ (codes "UNLOCKED") refl unlocked h4
              (λ h5. ground (arith, h5))))))

  in_false-MeansOff : (s : List ℕ) → text_in s false_texts ≡ true → MeansOff s
  unfolding text_in
  in_false-MeansOff s h =
      found_or MeansOff s (text_eq (codes "OFF") s) _ (codes "OFF") refl off h (λ h1.
        found_or MeansOff s (text_eq (codes "FALSE") s) _ (codes "FALSE") refl falsity h1 (λ h2.
          found_or MeansOff s (text_eq (codes "NO") s) _ (codes "NO") refl no h2 (λ h3.
            found_or MeansOff s (text_eq (codes "CLOSE") s) _ (codes "CLOSE") refl close h3 (λ h4.
              found_or MeansOff s (text_eq (codes "CLOSED") s) _ (codes "CLOSED") refl closed h4
                (λ h5.
                  found_or MeansOff s (text_eq (codes "LOCKED") s) _ (codes "LOCKED") refl locked h5
                    (λ h6. ground (arith, h6)))))))

  bit_of_int-StandsFor :
      (upper : List ℕ → List ℕ) (n : ℤ) (b : Bool)
      → bit_of_int n ≡ some b
      → StandsFor upper (integer n) b
  unfolding bit_of_int
  bit_of_int-StandsFor upper (pos zero) b h =
      subst (StandsFor upper (integer (pos 0))) (cc h) zero_int
  bit_of_int-StandsFor upper (pos (suc zero)) b h =
      subst (StandsFor upper (integer (pos 1))) (cc h) one
  bit_of_int-StandsFor upper (pos (suc (suc n))) b h = ground (arith, h)
  bit_of_int-StandsFor upper (negsuc n) b h = cc

  pub bit_of-StandsFor :
      (upper : List ℕ → List ℕ) (v : Value Float) (b : Bool)
      → bit_of a upper v ≡ some b
      → StandsFor upper v b
  unfolding bit_of bit_of_text
  bit_of-StandsFor upper (flag c) b h = subst (StandsFor upper (flag c)) (cc h) itself
  bit_of-StandsFor upper (integer n) b h = bit_of_int-StandsFor upper n b h
  bit_of-StandsFor upper (real x) b h = elim (Bool-cases (a.is_zero x)) [
    | inl e ↦ subst (StandsFor upper (real x)) (cc (rw e at h)) (real_zero e)
    | inr e ↦ elim (Bool-cases (a.is_one x)) [
      | inl e' ↦ subst (StandsFor upper (real x)) (cc (rw (e, e') at h)) (real_one e')
      | inr e' ↦ absurd (cc (rw (e, e') at h))
    ]
  ]
  bit_of-StandsFor upper (text s) b h = elim (Bool-cases (text_in (upper s) true_texts)) [
    | inl e ↦
        subst (StandsFor upper (text s)) (cc (rw e at h)) (on_text (in_true-MeansOn (upper s) e))
    | inr e ↦ elim (Bool-cases (text_in (upper s) false_texts)) [
      | inl e' ↦
          subst (StandsFor upper (text s)) (cc (rw (e, e') at h))
            (off_text (in_false-MeansOff (upper s) e'))
      | inr e' ↦ absurd (cc (rw (e, e') at h))
    ]
  ]
  bit_of-StandsFor upper other b h = cc

pub writable_inv : (mode : WireMode) → is_writable mode ≡ true → mode ≢ read_only
unfolding is_writable
writable_inv read_only h = ground (arith, h)
writable_inv read_write h = λ e. cc
writable_inv write_only h = λ e. cc
