-- ===== src/Wire/Varint.antt =====
-- What `_encode_varint` writes, in plain arithmetic, and that `_decode_varint` reads it back.
use mathlib.Core.WellFounded.{Acc}
use native.Mathlib.Nat.{div-add-mod, pow-suc, pow-le-pow_right, le_trans}
use native.Mathlib.Numerals.{towards_suc}
use hymer_connect_ha.Prelude.{
  ℕ, zero, suc, ◌+◌, ◌*◌, ◌/◌, ◌%◌, ◌^◌, ◌≤◌, ◌<◌, bit_and, bit_or, ◌≡◌, ap, arith, ◌⊎◌, inl, inr,
  List, [], ◌∷◌, ◌++◌, length, ltb, leb, if◌then◌else◌, All, IsByte, lt_wf,
}
use hymer_connect_ha.Prelude.Bits.{low_seven, top_bit, set_top_bit, bit_or_shifted}
use hymer_connect_ha.Prelude.Result.{ok, err, value_error}
use hymer_connect_ha.Wire.{varint_loop, varint_bytes, decode_varint_loop, decode_varint}

-- The groups of seven bits of `v`, lowest first, for `v` below 128 ^ (k + 1).
unfoldable pub groups : ℕ → ℕ → List ℕ
groups zero v = v ∷ []
groups (suc k) v =
    let rest = groups k (v / 128) in if ltb v 128 then v ∷ [] else (v % 128 + 128) ∷ rest

pub inner_group : (v : ℕ) → bit_or (bit_and v 0x7f) 0x80 ≡ v % 128 + 128
inner_group v = grind (arith, low_seven v, set_top_bit (v % 128))

varint_loop-eq-groups : (k v : ℕ) (w : Acc ◌<◌ v) → v < 128 ^ suc k → varint_loop v w ≡ groups k v
unfolding varint_loop groups
varint_loop-eq-groups zero v (Acc.intro _ smaller) h = ground (arith, low_seven v)
varint_loop-eq-groups (suc k) v (Acc.intro _ smaller) h = grind (
  arith,
  low_seven v,
  inner_group v,
  λ (w : Acc ◌<◌ (v / 128)). varint_loop-eq-groups k (v / 128) w (omega arith),
)

pub varint_bytes-eq-groups : (k v : ℕ) → v < 128 ^ suc k → varint_bytes v ≡ groups k v
unfolding varint_bytes
varint_bytes-eq-groups k v h = varint_loop-eq-groups k v (lt_wf.apply v) h

pub groups-IsByte : (k v : ℕ) → v < 128 ^ suc k → All IsByte (groups k v)
unfolding groups
groups-IsByte zero v h = omega arith
groups-IsByte (suc k) v h = ground (arith, groups-IsByte k (v / 128))

pub length-groups : (k v : ℕ) → (1 ≤ length (groups k v)) × (length (groups k v) ≤ k + 1)
unfolding groups
length-groups zero v = omega arith
length-groups (suc k) v = ground (arith, length-groups k (v / 128))

-- One round of the decoder on a last byte, and on a byte with the top bit set over the group `g`.
last_byte :
    (g value shift : ℕ) (rest : List ℕ)
    → g < 128
    → value < 2 ^ shift
    → decode_varint_loop (g ∷ rest) shift value ≡ ok (value + g * 2 ^ shift, rest)
unfolding decode_varint_loop
last_byte g value shift rest hg hv =
    ground (arith, low_seven g, top_bit g, bit_or_shifted shift value (bit_and g 0x7f))

inner_byte :
    (g value shift : ℕ) (rest : List ℕ)
    → g < 128
    → value < 2 ^ shift
    → decode_varint_loop ((g + 128) ∷ rest) shift value ≡ (
        if leb 64 (shift + 7)
        then err value_error
        else decode_varint_loop rest (shift + 7) (value + g * 2 ^ shift))
unfolding decode_varint_loop
inner_byte g value shift rest hg hv =
    ground (arith, low_seven (g + 128), top_bit (g + 128), bit_or_shifted shift value g)

pub shift_seven : (s : ℕ) → 2 ^ (s + 7) ≡ 128 * 2 ^ s
shift_seven s = simp towards_suc (omega arith)

-- The lowest group of `w` and the rest, both shifted by `s`.
pub split_group : (w s : ℕ) → w * 2 ^ s ≡ w % 128 * 2 ^ s + w / 128 * 2 ^ (s + 7)
split_group w s =
    let parts = ap (λ (n : ℕ). n * 2 ^ s) (div-add-mod w 128) in
    rw shift_seven (omega (arith, parts))

pub group_fits :
    (g value shift : ℕ) → g < 128 → value < 2 ^ shift → value + g * 2 ^ shift < 2 ^ (shift + 7)
group_fits g value shift hg hv = rw shift_seven (grind arith)

-- `w` is what is still to be read, and it counts from bit `shift` on.
decode_varint_loop-groups :
    (k w value shift : ℕ) (rest : List ℕ)
    → w < 128 ^ suc k
    → shift + 7 * k < 64
    → value < 2 ^ shift
    → decode_varint_loop (groups k w ++ rest) shift value ≡ ok (value + w * 2 ^ shift, rest)
unfolding groups
decode_varint_loop-groups zero w value shift rest hw hs hv = last_byte w value shift rest hw hv
decode_varint_loop-groups (suc k) w value shift rest hw hs hv = ground (
  arith,
  last_byte w value shift rest,
  split_group w shift,
  inner_byte (w % 128) value shift (groups k (w / 128) ++ rest),
  group_fits (w % 128) value shift (omega arith) hv,
  decode_varint_loop-groups k (w / 128) (value + w % 128 * 2 ^ shift) (shift + 7) rest
      (omega arith),
)

-- The BLE varint decoder reads back every number below 2 ^ 70 that the encoder wrote, and stops at
-- the byte behind it.
pub decode_varint-varint_bytes :
    (value : ℕ) (rest : List ℕ)
    → value < 2 ^ 70
    → decode_varint (varint_bytes value ++ rest) ≡ ok (value, rest)
unfolding decode_varint
decode_varint-varint_bytes value rest h =
    rw (varint_bytes-eq-groups 9 value h)
      (ground (arith, decode_varint_loop-groups 9 value 0 0 rest h (omega arith) (omega arith)))

pub lt-pow_128 : (v : ℕ) → v < 128 ^ suc v
lt-pow_128 zero = omega arith
lt-pow_128 (suc v) = omega (arith, lt-pow_128 v, pow-suc 128 (suc v))

pub groups_of : (v : ℕ) → varint_bytes v ≡ groups v v
groups_of v = varint_bytes-eq-groups v v (lt-pow_128 v)

pow_pos : (m : ℕ) → 1 ≤ 128 ^ m
pow_pos zero = omega arith
pow_pos (suc m) = omega (arith, pow-suc 128 m, pow_pos m)

-- A number of `m` groups more than fit below bit 64 is refused.
decode_varint_loop_wide :
    (m k w value shift : ℕ) (rest : List ℕ)
    → m ≤ k
    → 128 ^ m ≤ w
    → 64 ≤ shift + 7 * m
    → shift < 64
    → value < 2 ^ shift
    → decode_varint_loop (groups k w ++ rest) shift value ≡ err value_error
unfolding groups
decode_varint_loop_wide zero k w value shift rest hk hw hs lo hv = absurd (omega arith)
decode_varint_loop_wide (suc m) zero w value shift rest hk hw hs lo hv = absurd (omega arith)
decode_varint_loop_wide (suc m) (suc k) w value shift rest hk hw hs lo hv = ground (
  arith,
  pow-suc 128 m,
  pow_pos m,
  inner_byte (w % 128) value shift (groups k (w / 128) ++ rest),
  group_fits (w % 128) value shift (omega arith) hv,
  decode_varint_loop_wide m k (w / 128) (value + w % 128 * 2 ^ shift) (shift + 7) rest
      (omega arith),
)

-- A number from 2 ^ 70 on is written by the BLE varint encoder, but the decoder refuses what it
-- wrote with ValueError, whatever follows.
pub decode_varint_wide :
    (value : ℕ) (rest : List ℕ)
    → 2 ^ 70 ≤ value
    → decode_varint (varint_bytes value ++ rest) ≡ err value_error
unfolding decode_varint
decode_varint_wide value rest h = rw (groups_of value) (
    decode_varint_loop_wide 10 value value 0 0 rest (omega arith) h (omega arith) (omega arith)
      (omega arith))

-- How much of the buffer the decoder takes.
pub record Takes (buffer rest : List ℕ) (most : ℕ) : Type 0 where
  pub used : List ℕ
  pub buffer_eq : buffer ≡ used ++ rest
  pub some_used : 1 ≤ length used
  pub few_used : length used ≤ most

-- What one successful round of the loop does.
one_round :
    (b : ℕ) (buffer : List ℕ) (value shift v : ℕ) (rest : List ℕ)
    → value < 2 ^ shift
    → decode_varint_loop (b ∷ buffer) shift value ≡ ok (v, rest)
    → (value + b % 128 * 2 ^ shift ≡ v) × (buffer ≡ rest)
      ⊎ (shift + 7 < 64)
        × (decode_varint_loop buffer (shift + 7) (value + b % 128 * 2 ^ shift) ≡ ok (v, rest))
unfolding decode_varint_loop
one_round b buffer value shift v rest hv e =
    ground (arith, low_seven b, bit_or_shifted shift value (b % 128))

decode_varint_loop-Takes :
    (j : ℕ) (buffer : List ℕ) (shift value v : ℕ) (rest : List ℕ)
    → shift + 7 * j ≡ 70
    → 1 ≤ j
    → value < 2 ^ shift
    → decode_varint_loop buffer shift value ≡ ok (v, rest)
    → Takes buffer rest j × (v < 2 ^ 70)
decode_varint_loop-Takes j [] shift value v rest hs hj hv e = unfold decode_varint_loop in cc
decode_varint_loop-Takes zero (b ∷ buffer) shift value v rest hs hj hv e = absurd (omega arith)
decode_varint_loop-Takes (suc j) (b ∷ buffer) shift value v rest hs hj hv e =
    let value' : ℕ = value + b % 128 * 2 ^ shift in
    let next = group_fits (b % 128) value shift (omega arith) hv in
    elim (one_round b buffer value shift v rest hv e) [
      | inl (ev, er) ↦ (
        record {
          used = b ∷ [];
          buffer_eq = ap (λ t. b ∷ t) er;
          some_used = omega arith;
          few_used = omega arith;
        },
        le_trans (rw ev at next)
            (pow-le-pow_right {n = 2} (omega arith) {i = shift + 7} {j = 70} (omega arith)),
      )
      | inr (more, e') ↦
          let (t, fits) =
            decode_varint_loop-Takes j buffer (shift + 7) value' v rest (omega arith) (omega arith)
              next e' in
          (
            record {
              used = b ∷ t.used;
              buffer_eq = ap (λ u. b ∷ u) t.buffer_eq;
              some_used = omega arith;
              few_used = omega (arith, t.few_used);
            },
            fits,
          )
    ]

-- Where the BLE varint decoder returns a value, it has taken between 1 and 10 bytes off the front
-- of the buffer, and the value is below 2 ^ 70.
decode_varint-Takes :
    (buffer : List ℕ) (value : ℕ) (rest : List ℕ)
    → decode_varint buffer ≡ ok (value, rest)
    → Takes buffer rest 10 × (value < 2 ^ 70)
unfolding decode_varint
decode_varint-Takes buffer value rest e =
    decode_varint_loop-Takes 10 buffer 0 0 value rest (omega arith) (omega arith) (omega arith) e

pub varint_bytes_pos : (v : ℕ) → 1 ≤ length (varint_bytes v)
varint_bytes_pos v = rw (groups_of v) (omega (arith, length-groups v v))
