-- ===== src/Capability/Lookup.antt =====
-- Slots, keys and the dict from slot to key that capability_resolver.py checks with: equality and
-- lookup.
use hymer_connect_ha.Prelude.{
  ℕ, Bool, true, false, not, ◌&&◌, Option, none, some, List, ◌∷◌, ◌≡◌, refl, ap, ◌⊎◌, inl, inr,
  arith, ==→eq, ==_refl, Bool-cases,
}
use hymer_connect_ha.Prelude.Int.{ℤ, pos, negsuc}
use hymer_connect_ha.Prelude.Text.{text_eq, text_eq→eq, text_eq_refl}
use hymer_connect_ha.Capability.{Slot, int_eq, slot_eq, Seen, seen_key, is_reused}

int_eq→eq : (a b : ℤ) → int_eq a b ≡ true → a ≡ b
unfolding int_eq
int_eq→eq (pos m) (pos n) h = ap pos (==→eq m n h)
int_eq→eq (pos m) (negsuc n) h = ground arith
int_eq→eq (negsuc m) (pos n) h = ground arith
int_eq→eq (negsuc m) (negsuc n) h = ap negsuc (==→eq m n h)

int_eq_refl : (a : ℤ) → int_eq a a ≡ true
unfolding int_eq
int_eq_refl (pos m) = ==_refl m
int_eq_refl (negsuc m) = ==_refl m

&&_left : (a b : Bool) → (a && b) ≡ true → a ≡ true
&&_left a b h = ground arith

&&_right : (a b : Bool) → (a && b) ≡ true → b ≡ true
&&_right a b h = ground arith

pub slot_eq→eq : (a b : Slot) → slot_eq a b ≡ true → a ≡ b
unfolding slot_eq
slot_eq→eq (c, s) (d, t) h = cc (
  int_eq→eq c d (&&_left (int_eq c d) (int_eq s t) h),
  int_eq→eq s t (&&_right (int_eq c d) (int_eq s t) h),
)

slot_eq_refl : (a : Slot) → slot_eq a a ≡ true
unfolding slot_eq
slot_eq_refl (c, s) = cc (int_eq_refl c, int_eq_refl s)

pub some_injective : {A : Type 0} {a b : A} → some a ≡ some b → a ≡ b
some_injective e = cc

-- An entry that is in front.
pub seen_key_same :
    (slot : Slot) (k : List ℕ) (seen : Seen) → seen_key slot ((slot, k) ∷ seen) ≡ some k
unfolding seen_key
seen_key_same slot k seen = ground (arith, slot_eq_refl slot)

-- What a dict with one more entry holds.
pub seen_key_inv :
    (t s : Slot) (k j : List ℕ) (seen : Seen)
    → seen_key s ((t, k) ∷ seen) ≡ some j
    → ((t ≡ s) × (k ≡ j)) ⊎ (seen_key s seen ≡ some j)
unfolding seen_key
seen_key_inv t s k j seen h = elim (Bool-cases (slot_eq t s)) [
  | inl e ↦ inl (slot_eq→eq t s e, cc (e, h))
  | inr e ↦ inr (cc (e, h))
]

reused_inv : (j k : List ℕ) → is_reused (some j) k ≡ false → j ≡ k
unfolding is_reused
reused_inv j k h =
    text_eq→eq j k (elim (Bool-cases (text_eq j k)) [ inl e ↦ e | inr e ↦ ground (arith, e, h) ])

not-true : (b : Bool) → b ≡ true → not b ≡ false
not-true b h = ground arith

pub not_reused :
    (found : Option (List ℕ)) (k : List ℕ)
    → ((j : List ℕ) → found ≡ some j → j ≡ k)
    → is_reused found k ≡ false
unfolding is_reused
not_reused none k same = refl
not_reused (some j) k same = not-true (text_eq j k) (cc (same j refl, text_eq_refl k))

-- An entry that another one does not replace by a different key.
pub seen_key_kept :
    (t s : Slot) (k j : List ℕ) (seen : Seen)
    → is_reused (seen_key t seen) k ≡ false
    → seen_key s seen ≡ some j
    → seen_key s ((t, k) ∷ seen) ≡ some j
unfolding seen_key
seen_key_kept t s k j seen same h = elim (Bool-cases (slot_eq t s)) [
  | inl e ↦ cc (e, h, reused_inv j k (cc (h, same, slot_eq→eq t s e)))
  | inr e ↦ cc (e, h)
]
