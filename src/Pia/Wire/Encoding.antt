-- ===== src/Pia/Wire/Encoding.antt =====
-- The encoder of the cloud protocol writes what that of the BLE protocol writes, for numbers that are
-- not negative.
use mathlib.Core.WellFounded.{Acc}
use hymer_connect_ha.Prelude.{◌+◌, ◌/◌, ◌*◌, ◌^◌, ℕ, zero, suc, ◌≡◌, arith}
use hymer_connect_ha.Prelude.Bits.{bit_or_key}
use hymer_connect_ha.Prelude.Int.{pos}
use hymer_connect_ha.Wire
use hymer_connect_ha.Wire.Varint.{groups, inner_group, lt-pow_128, groups_of}
use hymer_connect_ha.Prelude.{sym, ◌∙◌, length, lt_wf}
use hymer_connect_ha.Prelude.Bits.{low_seven}
use hymer_connect_ha.Wire.Fields.{varint, delimited, field_bytes}
use hymer_connect_ha.Pia.Wire.{
  List, ◌<◌, varint_loop, encode_varint, encode_field, encode_varint_field, encode_bytes_field,
}

loop-eq-groups : (k v : ℕ) (w : Acc ◌<◌ v) → v < 128 ^ suc k → varint_loop v w ≡ groups k v
unfolding varint_loop groups
loop-eq-groups zero v (Acc.intro _ smaller) h = ground (arith, low_seven v)
loop-eq-groups (suc k) v (Acc.intro _ smaller) h = grind (
  arith,
  low_seven v,
  inner_group v,
  λ (w : Acc ◌<◌ (v / 128)). loop-eq-groups k (v / 128) w (omega arith),
)

-- The varint encoders of the cloud and of the BLE protocol write the same bytes for every number
-- that is not negative.
pub encode_varint-eq-varint_bytes : (v : ℕ) → encode_varint (pos v) ≡ Wire.varint_bytes v
unfolding encode_varint
encode_varint-eq-varint_bytes v =
    loop-eq-groups v v (lt_wf.apply v) (lt-pow_128 v) ∙ sym (groups_of v)

pub encode_varint_field-bytes :
    (n value : ℕ) → encode_varint_field n (pos value) ≡ field_bytes (varint n value)
unfolding encode_varint_field encode_field field_bytes
encode_varint_field-bytes n value =
    rw (bit_or_key n 0 (omega arith))
      (rw (encode_varint-eq-varint_bytes value, encode_varint-eq-varint_bytes (n * 8 + 0)))

pub encode_bytes_field-bytes :
    (n : ℕ) (bytes : List ℕ) → encode_bytes_field n bytes ≡ field_bytes (delimited n bytes)
unfolding encode_bytes_field encode_field field_bytes
encode_bytes_field-bytes n bytes =
    rw (bit_or_key n 2 (omega arith))
      (rw (encode_varint-eq-varint_bytes (length bytes), encode_varint-eq-varint_bytes (n * 8 + 2)))
