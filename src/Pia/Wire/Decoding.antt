-- ===== src/Pia/Wire/Decoding.antt =====
-- The decoder on any bytes, and on the bytes of a well-formed message.
use mathlib.Core.List.{append_assoc}
use hymer_connect_ha.Prelude.{
  sym, length-append, ap, inr, inl, map, All, Option-cases, length-drop, cut-append, ◌/◌, ◌%◌, ◌*◌,
  ◌+◌, ◌-◌, ◌^◌, ◌≤◌, ◌<◌, ℕ, zero, suc, ◌≡◌, refl, ◌∙◌, arith, List, [], ◌∷◌, ◌++◌,
}
use hymer_connect_ha.Prelude.Bits.{low_seven, top_bit, bit_or_shifted}
use hymer_connect_ha.Wire
use hymer_connect_ha.Wire.Varint.{groups, groups_of, lt-pow_128, group_fits, split_group}
use hymer_connect_ha.Wire.Fields.{
  length-field_bytes, Field, varint, fixed64, delimited, fixed32, field_number, wire_type, body,
  field_bytes, message_bytes, key_number, key_type,
}
use hymer_connect_ha.Pia.Wire.{
  Option, none, bit_and, bit_or, some, length, decode_varint, Floats, RawField, number, bytes,
  float, decode_value, decode_loop, decode_protobuf,
}

last_byte :
    (g result shift : ℕ) (rest : List ℕ)
    → g < 128
    → result < 2 ^ shift
    → decode_varint (g ∷ rest) shift result ≡ (result + g * 2 ^ shift, rest)
unfolding decode_varint
last_byte g result shift rest hg hv =
    ground (arith, low_seven g, top_bit g, bit_or_shifted shift result (bit_and g 0x7f))

inner_byte :
    (g result shift : ℕ) (rest : List ℕ)
    → g < 128
    → result < 2 ^ shift
    → decode_varint ((g + 128) ∷ rest) shift result
      ≡ decode_varint rest (shift + 7) (result + g * 2 ^ shift)
unfolding decode_varint
inner_byte g result shift rest hg hv =
    ground (arith, low_seven (g + 128), top_bit (g + 128), bit_or_shifted shift result g)

decode_varint-groups :
    (k w result shift : ℕ) (rest : List ℕ)
    → w < 128 ^ suc k
    → result < 2 ^ shift
    → decode_varint (groups k w ++ rest) shift result ≡ (result + w * 2 ^ shift, rest)
unfolding groups
decode_varint-groups zero w result shift rest hw hv = last_byte w result shift rest hw hv
decode_varint-groups (suc k) w result shift rest hw hv = ground (
  arith,
  last_byte w result shift rest,
  split_group w shift,
  inner_byte (w % 128) result shift (groups k (w / 128) ++ rest),
  group_fits (w % 128) result shift (omega arith) hv,
  decode_varint-groups k (w / 128) (result + w % 128 * 2 ^ shift) (shift + 7) rest (omega arith),
)

-- A number of any size is read back.
pub decode_varint-varint_bytes :
    (v : ℕ) (rest : List ℕ) → decode_varint (Wire.varint_bytes v ++ rest) 0 0 ≡ (v, rest)
decode_varint-varint_bytes v rest =
    rw (groups_of v)
      (ground (arith, decode_varint-groups v v 0 0 rest (lt-pow_128 v) (omega arith)))

-- Reading takes a byte at least, where there is one.
decode_varint_shorter :
    (buffer : List ℕ) (shift result : ℕ)
    → length (decode_varint buffer shift result).1 ≤ length buffer - 1
unfolding decode_varint
decode_varint_shorter [] shift result = omega arith
decode_varint_shorter (b ∷ buffer) shift result =
    ground
      (arith, decode_varint_shorter buffer (shift + 7) (bit_or result (bit_and b 0x7f * 2 ^ shift)))

-- A fixed-width field has its width; numbers, lengths and keys are of any size.
abbrev pub IsWide : Field → Type 0
IsWide (varint n value) = Unit {0}
IsWide (fixed64 n bs) = length bs ≡ 8
IsWide (delimited n bs) = Unit {0}
IsWide (fixed32 n bs) = length bs ≡ 4

module _ (floats : Floats) where
  open floats use {Float, unpack_double, unpack_single}

  -- A field as the decoder shows it.
  abbrev pub raw : Field → RawField floats
  raw (varint n value) = (n, 0, number value)
  raw (fixed64 n bs) = (n, 1, float (unpack_double bs))
  raw (delimited n bs) = (n, 2, bytes bs)
  raw (fixed32 n bs) = (n, 5, float (unpack_single bs))

  decode_value-body :
      (f : Field) (rest : List ℕ)
      → IsWide f
      → decode_value floats (field_number f) (wire_type f) (body f ++ rest) ≡ some (raw f, rest)
  unfolding decode_value
  decode_value-body (varint n value) rest h = rw (decode_varint-varint_bytes value rest)
  decode_value-body (fixed64 n bs) rest h = let (e, t, d) = cut-append bs rest 8 h in rw (e, t, d)
  decode_value-body (delimited n bs) rest h =
      let (e, t, d) = cut-append bs rest (length bs) refl in
      rw (append_assoc (Wire.varint_bytes (length bs)) bs rest)
        (rw (decode_varint-varint_bytes (length bs) (bs ++ rest)) (rw (e, t, d)))
  decode_value-body (fixed32 n bs) rest h = let (e, t, d) = cut-append bs rest 4 h in rw (e, t, d)

  decode_value_shorter :
      (n w : ℕ) (buffer : List ℕ) (f : RawField floats) (rest : List ℕ)
      → decode_value floats n w buffer ≡ some (f, rest)
      → length rest ≤ length buffer
  unfolding decode_value
  decode_value_shorter n w buffer f rest e =
      let (size, left) = decode_varint buffer 0 0 in
      ground (
        arith,
        decode_varint_shorter buffer 0 0,
        length-drop 8 buffer,
        length-drop 4 buffer,
        length-drop size left,
      )

  -- One round of the loop, on the tag that it reads.
  module _ (n b : ℕ) (buffer : List ℕ) where
    abbrev next_value : Option (RawField floats × List ℕ)
    next_value =
        let (tag, rest) = decode_varint (b ∷ buffer) 0 0 in
        decode_value floats (tag / 2 ^ 3) (bit_and tag 0x07) rest

    loop_break : next_value ≡ none → decode_loop floats (suc n) (b ∷ buffer) ≡ []
    unfolding decode_loop
    loop_break e = rw (e, decode_loop)

    loop_field :
        (f : RawField floats) (rest : List ℕ)
        → next_value ≡ some (f, rest)
        → decode_loop floats (suc n) (b ∷ buffer) ≡ f ∷ decode_loop floats n rest
    unfolding decode_loop
    loop_field f rest e = rw (e, decode_loop)

    next_shorter :
        (f : RawField floats) (rest : List ℕ)
        → next_value ≡ some (f, rest)
        → length rest ≤ length buffer
    next_shorter f rest e =
        let (tag, left) = decode_varint (b ∷ buffer) 0 0 in
        omega (
          arith,
          decode_varint_shorter (b ∷ buffer) 0 0,
          decode_value_shorter (tag / 2 ^ 3) (bit_and tag 0x07) left f rest e,
        )

  -- For every choice of float operations: the cloud decoder gives the same fields for any two
  -- amounts of fuel that are at least the number of bytes, so the fuel that it is given never cuts
  -- a message off.
  pub decode_loop_fuel :
      (n m : ℕ) (buffer : List ℕ)
      → length buffer ≤ n
      → length buffer ≤ m
      → decode_loop floats n buffer ≡ decode_loop floats m buffer
  decode_loop_fuel n m [] hn hm = unfold decode_loop in refl
  decode_loop_fuel zero m (b ∷ buffer) hn hm = absurd (omega arith)
  decode_loop_fuel (suc n) zero (b ∷ buffer) hn hm = absurd (omega arith)
  decode_loop_fuel (suc n) (suc m) (b ∷ buffer) hn hm =
      elim (Option-cases (next_value n b buffer)) [
        | inl e ↦ loop_break n b buffer e ∙ sym (loop_break m b buffer e)
        | inr ((f, rest), e) ↦
            loop_field n b buffer f rest e
            ∙ ap (λ (t : List (RawField floats)). f ∷ t)
                (decode_loop_fuel n m rest (omega (arith, next_shorter n b buffer f rest e))
                  (omega (arith, next_shorter n b buffer f rest e)))
            ∙ sym (loop_field m b buffer f rest e)
      ]

  decode_tag :
      (f : Field) (rest : List ℕ)
      → decode_varint (field_bytes f ++ rest) 0 0
        ≡ (field_number f * 8 + wire_type f, body f ++ rest)
  unfolding field_bytes
  decode_tag f rest =
      rw (append_assoc (Wire.varint_bytes (field_number f * 8 + wire_type f)) (body f) rest)
        (decode_varint-varint_bytes (field_number f * 8 + wire_type f) (body f ++ rest))

  decode_field :
      (f : Field) (buffer rest : List ℕ) (fuel : ℕ)
      → IsWide f
      → buffer ≡ field_bytes f ++ rest
      → 1 ≤ length buffer
      → decode_loop floats (suc fuel) buffer ≡ raw f ∷ decode_loop floats fuel rest
  decode_field f [] rest fuel h e l = absurd (omega arith)
  decode_field f (b ∷ buffer) rest fuel h e l =
      loop_field fuel b buffer (raw f) rest
        (rw (e, decode_tag f rest) (rw (key_number f, key_type f) (decode_value-body f rest h)))

  decode_loop-message_bytes :
      (fs : List Field) (fuel : ℕ)
      → All IsWide fs
      → length (message_bytes fs) ≤ fuel
      → decode_loop floats fuel (message_bytes fs) ≡ map raw fs
  unfolding message_bytes
  decode_loop-message_bytes [] fuel h l = unfold decode_loop in refl
  decode_loop-message_bytes (f ∷ fs) zero h l =
      absurd (omega (arith, length-append (field_bytes f) (message_bytes fs), length-field_bytes f))
  decode_loop-message_bytes (f ∷ fs) (suc fuel) h l =
      let more = length-append (field_bytes f) (message_bytes fs) in
      let some_byte = length-field_bytes f in
      decode_field f (field_bytes f ++ message_bytes fs) (message_bytes fs) fuel h.0 refl
        (omega arith)
      ∙ ap (λ (t : List (RawField floats)). raw f ∷ t)
          (decode_loop-message_bytes fs fuel h.1 (omega arith))

  -- For every choice of float operations: the cloud decoder shows the fields of a well-formed
  -- message in order, each with its number, wire type and value, numbers and lengths of any size
  -- included.
  pub decode_protobuf-message_bytes :
      (fs : List Field) → All IsWide fs → decode_protobuf floats (message_bytes fs) ≡ map raw fs
  unfolding decode_protobuf
  decode_protobuf-message_bytes fs h =
      decode_loop-message_bytes fs (length (message_bytes fs)) h (omega arith)
