-- ===== src/Wire/Fields.antt =====
-- An abstract view of a protobuf message, its fields, and the bytes that the encoders write for them.
use mathlib.Core.List.{append_assoc}
use hymer_connect_ha.Prelude.{
  ◌≤◌, All, ◌-◌, lt→ltb, ℕ, ◌+◌, ◌*◌, ◌/◌, ◌^◌, ◌<◌, ◌≡◌, bit_and, arith, Bool, true, false, List,
  [], ◌∷◌, ◌++◌, length, length-append, take-append, drop-append, ltb, if◌then◌else◌,
}
use hymer_connect_ha.Prelude.Int.{ℤ, pos, negsuc}
use hymer_connect_ha.Prelude.Utf8.{IsScalar}
use hymer_connect_ha.Prelude.Utf8.RoundTrip.{utf8, encode_utf8-eq-utf8}
use hymer_connect_ha.Prelude.Bits.{bit_or_key, bit_and_seven}
use hymer_connect_ha.Prelude.Result.{value_error, err, ok}
use hymer_connect_ha.Wire.{
  varint_bytes, encode_varint, decode_varint, encode_key, encode_varint_field, encode_bool_field,
  encode_string_field, encode_int32_field, encode_length_delimited_field, decode_length_delimited,
  skip_fixed, skip_protobuf_field,
}
use hymer_connect_ha.Wire.Varint.{varint_bytes_pos, decode_varint-varint_bytes}

-- A field number with a value of one of the four wire types that the code knows.
pub data Field : Type 0 where
  varint : ℕ → ℕ → Field
  fixed64 : ℕ → List ℕ → Field
  delimited : ℕ → List ℕ → Field
  fixed32 : ℕ → List ℕ → Field

abbrev pub field_number : Field → ℕ
field_number (varint n _) = n
field_number (fixed64 n _) = n
field_number (delimited n _) = n
field_number (fixed32 n _) = n

abbrev pub wire_type : Field → ℕ
wire_type (varint _ _) = 0
wire_type (fixed64 _ _) = 1
wire_type (delimited _ _) = 2
wire_type (fixed32 _ _) = 5

-- What stands behind the key.
abbrev pub body : Field → List ℕ
body (varint _ value) = varint_bytes value
body (fixed64 _ bytes) = bytes
body (delimited _ bytes) = varint_bytes (length bytes) ++ bytes
body (fixed32 _ bytes) = bytes

-- The key fits the decoder's ten groups, and so does the value or the length; a fixed width is met.
abbrev pub IsField : Field → Type 0
IsField (varint n value) = (n < 2 ^ 67) × (value < 2 ^ 70)
IsField (fixed64 n bytes) = (n < 2 ^ 67) × (length bytes ≡ 8)
IsField (delimited n bytes) = (n < 2 ^ 67) × (length bytes < 2 ^ 70)
IsField (fixed32 n bytes) = (n < 2 ^ 67) × (length bytes ≡ 4)

unfoldable pub field_bytes : Field → List ℕ
field_bytes f = varint_bytes (field_number f * 8 + wire_type f) ++ body f

unfoldable pub message_bytes : List Field → List ℕ
message_bytes [] = []
message_bytes (f ∷ fs) = field_bytes f ++ message_bytes fs

-- The field encoders write these bytes.
pub encode_varint_field-bytes :
    (n value : ℕ) → encode_varint_field n (pos value) ≡ ok (field_bytes (varint n value))
unfolding encode_varint_field encode_key encode_varint field_bytes
encode_varint_field-bytes n value = rw (bit_or_key n 0 (omega arith))

pub encode_delimited-bytes :
    (n : ℕ) (bytes : List ℕ)
    → encode_length_delimited_field n bytes ≡ ok (field_bytes (delimited n bytes))
unfolding encode_length_delimited_field encode_key encode_varint field_bytes
encode_delimited-bytes n bytes = rw (bit_or_key n 2 (omega arith))

pub encode_bool_field-bytes :
    (n : ℕ) (b : Bool) → encode_bool_field n b ≡ ok (field_bytes (varint n (if b then 1 else 0)))
unfolding encode_bool_field
encode_bool_field-bytes n true = encode_varint_field-bytes n 1
encode_bool_field-bytes n false = encode_varint_field-bytes n 0

key-lt : (f : Field) → IsField f → field_number f * 8 + wire_type f < 2 ^ 70
key-lt (varint n _) h = omega arith
key-lt (fixed64 n _) h = omega arith
key-lt (delimited n _) h = omega arith
key-lt (fixed32 n _) h = omega arith

wire_type-lt : (f : Field) → wire_type f < 8
wire_type-lt (varint n _) = omega arith
wire_type-lt (fixed64 n _) = omega arith
wire_type-lt (delimited n _) = omega arith
wire_type-lt (fixed32 n _) = omega arith

-- The decoder reads a field's key back, and splits it into the field's number and wire type.
pub decode_key :
    (f : Field) (rest : List ℕ)
    → IsField f
    → decode_varint (field_bytes f ++ rest) ≡ ok (field_number f * 8 + wire_type f, body f ++ rest)
unfolding field_bytes
decode_key f rest h =
    rw (append_assoc (varint_bytes (field_number f * 8 + wire_type f)) (body f) rest)
      (decode_varint-varint_bytes (field_number f * 8 + wire_type f) (body f ++ rest) (key-lt f h))

pub key_number : (f : Field) → (field_number f * 8 + wire_type f) / 2 ^ 3 ≡ field_number f
key_number f = omega (arith, wire_type-lt f)

pub key_type : (f : Field) → bit_and (field_number f * 8 + wire_type f) 7 ≡ wire_type f
key_type f = omega (arith, wire_type-lt f, bit_and_seven (field_number f * 8 + wire_type f))

-- A delimited field's bytes come back, with what follows them.
pub decode_delimited :
    (bytes rest : List ℕ)
    → length bytes < 2 ^ 70
    → decode_length_delimited ((varint_bytes (length bytes) ++ bytes) ++ rest) ≡ ok (bytes, rest)
unfolding decode_length_delimited
decode_delimited bytes rest h = rw (append_assoc (varint_bytes (length bytes)) bytes rest) (
    rw (decode_varint-varint_bytes (length bytes) (bytes ++ rest) h)
      (rw (fits bytes rest, take-append bytes rest, drop-append bytes rest)))
  where
    fits : (xs ys : List ℕ) → ltb (length (xs ++ ys)) (length xs) ≡ false
    fits xs ys = ground (arith, length-append xs ys)

skip_fixed-append :
    (bytes rest : List ℕ) (w : ℕ) → length bytes ≡ w → skip_fixed (bytes ++ rest) w ≡ ok rest
unfolding skip_fixed
skip_fixed-append bytes rest w h =
    rw (← h) (rw drop-append (ground (arith, length-append bytes rest)))

-- Skipping by wire type the body of a well-formed field, of any of the four wire types, lands
-- exactly behind it.
pub skip_protobuf_field-body :
    (f : Field) (rest : List ℕ)
    → IsField f
    → skip_protobuf_field (body f ++ rest) (wire_type f) ≡ ok rest
unfolding skip_protobuf_field
skip_protobuf_field-body (varint n value) rest h = rw (decode_varint-varint_bytes value rest h.1)
skip_protobuf_field-body (fixed64 n bytes) rest h = skip_fixed-append bytes rest 8 h.1
skip_protobuf_field-body (delimited n bytes) rest h = rw (decode_delimited bytes rest h.1)
skip_protobuf_field-body (fixed32 n bytes) rest h = skip_fixed-append bytes rest 4 h.1

-- The 64-bit two's complement of an int32.
unfoldable pub int32_word : ℤ → ℕ
int32_word (pos n) = n
int32_word (negsuc n) = 2 ^ 64 - (n + 1)

abbrev pub IsInt32 : ℤ → Type 0
IsInt32 (pos n) = n < 2 ^ 31
IsInt32 (negsuc n) = n < 2 ^ 31

-- An int32, negative or not, is written as the varint field of its 64-bit two's complement.
pub encode_int32_field-bytes :
    (n : ℕ) (value : ℤ)
    → IsInt32 value
    → encode_int32_field n value ≡ ok (field_bytes (varint n (int32_word value)))
unfolding encode_int32_field int32_word
encode_int32_field-bytes n (pos v) h =
    ground (arith, encode_varint_field-bytes n v, lt→ltb v (2 ^ 31) h)
encode_int32_field-bytes n (negsuc v) h =
    ground (arith, encode_varint_field-bytes n (2 ^ 64 - (v + 1)), lt→ltb v (2 ^ 31) h)

-- An integer that is no int32 is refused with ValueError, on both sides of the range.
pub encode_int32_field_range :
    (n : ℕ) (value : ℤ) → ¬ IsInt32 value → encode_int32_field n value ≡ err value_error
unfolding encode_int32_field
encode_int32_field_range n (pos v) h = ground arith
encode_int32_field_range n (negsuc v) h = ground arith

-- A text of scalars is written as a delimited field of its UTF-8 bytes.
pub encode_string_field-bytes :
    (n : ℕ) (text : List ℕ)
    → All IsScalar text
    → encode_string_field n text ≡ ok (field_bytes (delimited n (utf8 text)))
unfolding encode_string_field
encode_string_field-bytes n text h =
    rw (encode_utf8-eq-utf8 text h) (encode_delimited-bytes n (utf8 text))

pub length-field_bytes : (f : Field) → 1 ≤ length (field_bytes f)
unfolding field_bytes
length-field_bytes f =
    let key : ℕ = field_number f * 8 + wire_type f in
    omega (arith, length-append (varint_bytes key) (body f), varint_bytes_pos key)
