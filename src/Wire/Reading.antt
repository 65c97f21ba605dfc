-- ===== src/Wire/Reading.antt =====
-- The readers on any input, well formed or not: they end, and what they leave is no longer.
use hymer_connect_ha.Prelude.{
  ℕ, ◌+◌, ◌-◌, ◌*◌, ◌^◌, ◌≤◌, arith, bit_and, bit_or, List, [], ◌∷◌, length, take, drop,
  length-drop, ltb, if◌then◌else◌,
}
use hymer_connect_ha.Prelude.Result.{Result, ok, err, stuck, value_error, ◌>>=◌}
use hymer_connect_ha.Prelude.Leaves.{Leaves, second, itself, Leaves-bind}
use hymer_connect_ha.Wire.{
  decode_varint_loop, decode_varint, decode_length_delimited, skip_fixed, skip_protobuf_field,
}

-- Reading a number takes a byte at least.
decode_varint_loop-Leaves :
    (buffer : List ℕ) (shift value : ℕ)
    → Leaves second (length buffer - 1) (decode_varint_loop buffer shift value)
unfolding decode_varint_loop
decode_varint_loop-Leaves [] shift value = tt
decode_varint_loop-Leaves (b ∷ buffer) shift value = ground (
  arith,
  decode_varint_loop-Leaves buffer (shift + 7) (bit_or value (bit_and b 0x7f * 2 ^ shift)),
)

pub decode_varint-Leaves :
    (buffer : List ℕ) → Leaves second (length buffer - 1) (decode_varint buffer)
unfolding decode_varint
decode_varint-Leaves buffer = decode_varint_loop-Leaves buffer 0 0

cut-Leaves :
    (size : ℕ) (rest : List ℕ) (n : ℕ)
    → length rest ≤ n
    → Leaves second n
        (if ltb (length rest) size then err value_error else ok (take size rest, drop size rest))
cut-Leaves size rest n h = ground (arith, length-drop size rest)

pub decode_length_delimited-Leaves :
    (buffer : List ℕ) → Leaves second (length buffer - 1) (decode_length_delimited buffer)
unfolding decode_length_delimited
decode_length_delimited-Leaves buffer =
    Leaves-bind second second (length buffer - 1) (length buffer - 1) (decode_varint buffer) _
      (decode_varint-Leaves buffer) (λ p h. cut-Leaves p.0 p.1 _ h)

skip_fixed-Leaves : (buffer : List ℕ) (w : ℕ) → Leaves itself (length buffer) (skip_fixed buffer w)
unfolding skip_fixed
skip_fixed-Leaves buffer w = ground (arith, length-drop w buffer)

-- Dropping what was read.
rest-Leaves :
    {A : Type 0} (n : ℕ) (r : Result (A × List ℕ))
    → Leaves second (n - 1) r
    → Leaves itself n (r >>= λ p. ok p.1)
rest-Leaves n (ok p) h = omega arith
rest-Leaves n (err e) h = tt
rest-Leaves n stuck h = h

pub skip_protobuf_field-Leaves :
    (buffer : List ℕ) (wire_type : ℕ)
    → Leaves itself (length buffer) (skip_protobuf_field buffer wire_type)
unfolding skip_protobuf_field
skip_protobuf_field-Leaves buffer w = ground (
  arith,
  rest-Leaves (length buffer) (decode_varint buffer) (decode_varint-Leaves buffer),
  rest-Leaves (length buffer) (decode_length_delimited buffer)
      (decode_length_delimited-Leaves buffer),
  skip_fixed-Leaves buffer 8,
  skip_fixed-Leaves buffer 4,
)
