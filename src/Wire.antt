-- ===== src/Wire.antt =====
-- The protobuf primitives of custom_components/hymer_connect_metadata/ble_pia.py. A byte is a number
-- below 256 and `bytes` a list of them. A position in a buffer is the list of the bytes from it on,
-- so `(value, offset)` is a pair of a value and the rest.
pub mod Varint
pub mod Fields
pub mod Reading
use mathlib.Core.WellFounded.{Acc}
use mathlib.Core.Logic.{dite}
use native.Mathlib.Decide.{dec_lt}
use hymer_connect_ha.Prelude.{
  ℕ, ◌+◌, ◌-◌, ◌*◌, ◌/◌, ◌^◌, ◌<◌, bit_and, bit_or, Bool, arith, List, [], ◌∷◌, ◌++◌, length, take,
  drop, ltb, leb, ◌==◌, if◌then◌else◌, lt_wf,
}
use hymer_connect_ha.Prelude.Int.{ℤ, pos, negsuc}
use hymer_connect_ha.Prelude.Result.{Result, ok, err, value_error, ◌>>=◌}
use hymer_connect_ha.Prelude.Utf8.{encode_utf8}

abbrev pub wire_varint : ℕ
wire_varint = 0

abbrev pub wire_len : ℕ
wire_len = 2

abbrev pub wire_fixed32 : ℕ
wire_fixed32 = 5

pub shift_shrinks : (v : ℕ) → 0 < v / 2 ^ 7 → v / 2 ^ 7 < v
shift_shrinks v h = omega arith

-- The loop of `_encode_varint`: `remaining >>= 7` falls until it is 0.
unfoldable pub varint_loop : (remaining : ℕ) → Acc ◌<◌ remaining → List ℕ
varint_loop remaining (Acc.intro _ smaller) =
    let next_byte = bit_and remaining 0x7f in
    dite (dec_lt 0 (remaining / 2 ^ 7))
      (λ more.
        bit_or next_byte 0x80
        ∷ varint_loop (remaining / 2 ^ 7) (smaller _ (shift_shrinks remaining more)))
      (λ _. next_byte ∷ [])

unfoldable pub varint_bytes : ℕ → List ℕ
unfolding lt_wf dec_lt
varint_bytes value = varint_loop value (lt_wf.apply value)

unfoldable pub encode_varint : ℤ → Result (List ℕ)
encode_varint (negsuc n) = err value_error
encode_varint (pos value) = ok (varint_bytes value)

-- The loop of `_decode_varint`, over what the buffer holds from `index` on.
pub decode_varint_loop : List ℕ → ℕ → ℕ → Result (ℕ × List ℕ)
decode_varint_loop [] shift value = err value_error
decode_varint_loop (current ∷ rest) shift value =
    let value' = bit_or value (bit_and current 0x7f * 2 ^ shift) in
    let more = decode_varint_loop rest (shift + 7) value' in
    if bit_and current 0x80 == 0
    then ok (value', rest)
    else if leb 64 (shift + 7)
    then err value_error
    else more

pub decode_varint : List ℕ → Result (ℕ × List ℕ)
decode_varint buffer = decode_varint_loop buffer 0 0

unfoldable pub encode_key : ℕ → ℕ → Result (List ℕ)
encode_key field_number wire_type = encode_varint (pos (bit_or (field_number * 2 ^ 3) wire_type))

unfoldable pub encode_varint_field : ℕ → ℤ → Result (List ℕ)
encode_varint_field field_number value = do
  key ← encode_key field_number wire_varint
  encoded ← encode_varint value
  ok (key ++ encoded)

pub encode_bool_field : ℕ → Bool → Result (List ℕ)
encode_bool_field field_number value =
    encode_varint_field field_number (if value then pos 1 else pos 0)

unfoldable pub encode_length_delimited_field : ℕ → List ℕ → Result (List ℕ)
encode_length_delimited_field field_number value = do
  key ← encode_key field_number wire_len
  size ← encode_varint (pos (length value))
  ok (key ++ (size ++ value))

-- A `str` is its list of code points; a lone surrogate cannot be encoded.
unfoldable pub encode_string_field : ℕ → List ℕ → Result (List ℕ)
encode_string_field field_number value = do
  encoded ← encode_utf8 value
  encode_length_delimited_field field_number encoded

-- A negative int32 is sign-extended to 64 bits.
pub encode_int32_field : ℕ → ℤ → Result (List ℕ)
encode_int32_field field_number (pos n) =
    if ltb n (2 ^ 31) then encode_varint_field field_number (pos n) else err value_error
encode_int32_field field_number (negsuc n) =
    if ltb n (2 ^ 31)
    then encode_varint_field field_number (pos (2 ^ 64 - (n + 1)))
    else err value_error

-- `struct.pack("<f", value)` is `pack`, which raises where the float is too large.
pub encode_float_field {ℓ} :
    {Float : Type ℓ} → (Float → Result (List ℕ)) → ℕ → Float → Result (List ℕ)
encode_float_field pack field_number value = do
  key ← encode_key field_number wire_fixed32
  packed ← pack value
  ok (key ++ packed)

pub decode_length_delimited : List ℕ → Result (List ℕ × List ℕ)
decode_length_delimited buffer = do
  (size, rest) ← decode_varint buffer
  if ltb (length rest) size then err value_error else ok (take size rest, drop size rest)

pub skip_fixed : List ℕ → ℕ → Result (List ℕ)
skip_fixed buffer width =
    if ltb (length buffer) width then err value_error else ok (drop width buffer)

pub skip_protobuf_field : List ℕ → ℕ → Result (List ℕ)
skip_protobuf_field buffer wire_type =
    if wire_type == wire_varint
    then (do (_, rest) ← decode_varint buffer; ok rest)
    else if wire_type == wire_len
    then (do (_, rest) ← decode_length_delimited buffer; ok rest)
    else if wire_type == 1
    then skip_fixed buffer 8
    else if wire_type == 5
    then skip_fixed buffer 4
    else err value_error
