-- ===== src/Pia/Wire.antt =====
-- The protobuf encoder and the lenient decoder of pia_decoder.py. Nothing raises here: what cannot be
-- decoded ends the list of fields. Python floats and `struct.unpack` are parameters.
pub mod Encoding
pub mod Decoding
use mathlib.Core.WellFounded.{Acc}
use mathlib.Core.Logic.{dite}
use native.Mathlib.Decide.{dec_lt}
use hymer_connect_ha.Prelude.{
  ◌&&◌, Bool, ℕ, zero, suc, ◌+◌, ◌-◌, ◌*◌, ◌/◌, ◌%◌, ◌^◌, ◌<◌, bit_and, bit_or, arith, Option, none,
  some, List, [], ◌∷◌, ◌++◌, length, take, drop, ltb, ◌==◌, if◌then◌else◌, lt_wf,
}
use hymer_connect_ha.Prelude.Int.{ℤ, pos, negsuc}
use hymer_connect_ha.Prelude.Result.{Result, ok, ◌>>=◌}
use hymer_connect_ha.Prelude.Utf8.{encode_utf8}

shift_shrinks : (v : ℕ) → 0x7f < v → v / 2 ^ 7 < v
shift_shrinks v h = omega arith

pub varint_loop : (value : ℕ) → Acc ◌<◌ value → List ℕ
varint_loop value (Acc.intro _ smaller) =
    dite (dec_lt 0x7f value)
      (λ more.
        bit_or (bit_and value 0x7f) 0x80
        ∷ varint_loop (value / 2 ^ 7) (smaller _ (shift_shrinks value more)))
      (λ _. bit_and value 0x7f ∷ [])

-- A negative value is not above 0x7F, so it is written as its low seven bits: -(n + 1) & 0x7F.
pub encode_varint : ℤ → List ℕ
unfolding lt_wf dec_lt
encode_varint (pos value) = varint_loop value (lt_wf.apply value)
encode_varint (negsuc n) = (127 - n % 128) ∷ []

pub encode_field : ℕ → ℕ → List ℕ → List ℕ
encode_field field_number wire_type bytes =
    encode_varint (pos (bit_or (field_number * 2 ^ 3) wire_type)) ++ bytes

pub encode_varint_field : ℕ → ℤ → List ℕ
encode_varint_field field_number value = encode_field field_number 0 (encode_varint value)

pub encode_bytes_field : ℕ → List ℕ → List ℕ
encode_bytes_field field_number bytes =
    encode_field field_number 2 (encode_varint (pos (length bytes)) ++ bytes)

unfoldable pub encode_str_field : ℕ → List ℕ → Result (List ℕ)
encode_str_field field_number value = do
  data_bytes ← encode_utf8 value
  ok (encode_bytes_field field_number data_bytes)

-- A varint that the data cuts off is what was read of it.
unfoldable pub decode_varint : List ℕ → ℕ → ℕ → ℕ × List ℕ
decode_varint [] shift result = (result, [])
decode_varint (b ∷ rest) shift result =
    let result' = bit_or result (bit_and b 0x7f * 2 ^ shift) in
    let more = decode_varint rest (shift + 7) result' in
    if bit_and b 0x80 == 0 then (result', rest) else more

-- What the decoder needs of floats.
pub record Floats : Type 1 where
  pub Float : Type 0
  -- `struct.unpack_from("<d", …)`
  pub unpack_double : List ℕ → Float
  -- `round(struct.unpack_from("<f", …), 2)`
  pub unpack_single : List ℕ → Float
  -- `struct.pack("<f", value)`, which raises where the float is too large
  pub pack_single : Float → Result (List ℕ)
  -- `value in _FLOAT_SENTINELS`
  pub is_sentinel : Float → Bool

module _ (floats : Floats) where
  open floats use {Float, unpack_double, unpack_single}

  pub data Raw : Type 0 where
    number : ℕ → Raw
    bytes : List ℕ → Raw
    float : Float → Raw

  -- (field_number, wire_type, value)
  abbrev pub RawField : Type 0
  RawField = ℕ × ℕ × Raw

  -- The branch on the wire type, `none` for a `break`.
  unfoldable pub decode_value : ℕ → ℕ → List ℕ → Option (RawField × List ℕ)
  decode_value field_number wire_type buffer =
      if wire_type == 0
      then (let (value, rest) = decode_varint buffer 0 0 in
          some ((field_number, 0, number value), rest))
      else if wire_type == 1
      then (if ltb (length buffer) 8
          then none
          else some ((field_number, 1, float (unpack_double (take 8 buffer))), drop 8 buffer))
      else if wire_type == 5
      then (if ltb (length buffer) 4
          then none
          else some ((field_number, 5, float (unpack_single (take 4 buffer))), drop 4 buffer))
      else if wire_type == 2
      then (let (size, rest) = decode_varint buffer 0 0 in
          if ltb (length rest) size
          then none
          else some ((field_number, 2, bytes (take size rest)), drop size rest))
      else none

  unfoldable pub decode_loop : ℕ → List ℕ → List RawField
  decode_loop fuel [] = []
  decode_loop zero (b ∷ buffer) = []
  decode_loop (suc fuel) (b ∷ buffer) =
      let (tag, rest) = decode_varint (b ∷ buffer) 0 0 in
      elim (decode_value (tag / 2 ^ 3) (bit_and tag 0x07) rest) [
        | none ↦ []
        | some (f, rest') ↦ f ∷ decode_loop fuel rest'
      ]

  -- A field takes a byte at least.
  unfoldable pub decode_protobuf : List ℕ → List RawField
  decode_protobuf buffer = decode_loop (length buffer) buffer

  pub encode_float_field : ℕ → Float → Result (List ℕ)
  encode_float_field field_number value = do
    data_bytes ← floats.pack_single value
    ok (encode_field field_number 5 data_bytes)

  -- `next((v for fn, wt, v in fields if fn == n and wt == 0), …)`, or none.
  unfoldable pub first_number : ℕ → List RawField → Option ℕ
  first_number n [] = none
  first_number n ((fn, wt, number v) ∷ fields) =
      if fn == n && wt == 0 then some v else first_number n fields
  first_number n ((fn, wt, bytes v) ∷ fields) = first_number n fields
  first_number n ((fn, wt, float x) ∷ fields) = first_number n fields
