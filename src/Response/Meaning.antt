-- ===== src/Response/Meaning.antt =====
-- What each loop of the decoders does with a whole field, and that its steps do so on the field's bytes.
use hymer_connect_ha.Prelude.{
  ℕ, ◌≡◌, refl, arith, not, Option, some, List, [], ◌∷◌, ◌++◌, ◌==◌, if◌then◌else◌,
}
use hymer_connect_ha.Prelude.Result.{Result, ok, err, stuck, ◌>>=◌}
use hymer_connect_ha.Prelude.Utf8.{decode_utf8}
use hymer_connect_ha.Wire.Varint.{decode_varint-varint_bytes}
use hymer_connect_ha.Wire.Fields.{
  Field, varint, fixed64, delimited, fixed32, IsField, body, wire_type, decode_delimited,
  skip_protobuf_field-body,
}
use hymer_connect_ha.Response.{
  BleResponse, BlePairMobileResponse, skip, envelope_step, record_number, response_step, pair_step,
  record_text, mobile_pair_step,
}
use hymer_connect_ha.Response.Scan.{Follows}

unfoldable pub envelope_meaning : Field → Option (List ℕ) → Result (Option (List ℕ))
envelope_meaning (delimited n bytes) s = ok (if n == 2 then some bytes else s)
envelope_meaning (varint n value) s = ok s
envelope_meaning (fixed64 n bytes) s = ok s
envelope_meaning (fixed32 n bytes) s = ok s

unfoldable pub response_meaning : Field → BleResponse → Result BleResponse
response_meaning (varint n value) r = ok (record_number n value r)
response_meaning (delimited n bytes) r = ok (record r { topic_fields = r.topic_fields ++ (n ∷ []) })
response_meaning (fixed64 n bytes) r = ok r
response_meaning (fixed32 n bytes) r = ok r

unfoldable pub pair_meaning :
    Field → BleResponse × Option (List ℕ) → Result (BleResponse × Option (List ℕ))
pair_meaning (varint n value) (r, found) = ok (record_number n value r, found)
pair_meaning (delimited n bytes) (r, found) = ok (r, if n == 9 then some bytes else found)
pair_meaning (fixed64 n bytes) s = ok s
pair_meaning (fixed32 n bytes) s = ok s

unfoldable pub mobile_pair_meaning : Field → BlePairMobileResponse → Result BlePairMobileResponse
mobile_pair_meaning (varint n value) p =
    ok (if n == 3 then record p { confirmation_required = not (value == 0) } else p)
mobile_pair_meaning (delimited n bytes) p = do text ← decode_utf8 bytes; ok (record_text n text p)
mobile_pair_meaning (fixed64 n bytes) p = ok p
mobile_pair_meaning (fixed32 n bytes) p = ok p

module _ {S : Type 0} where
  skip-body :
      (f : Field) (rest : List ℕ) (s : S)
      → IsField f
      → skip (wire_type f) (body f ++ rest) s ≡ ok (s, rest)
  unfolding skip
  skip-body f rest s h = rw (skip_protobuf_field-body f rest h)

pub envelope_step-Follows : Follows envelope_step envelope_meaning
unfolding envelope_step envelope_meaning
envelope_step-Follows (varint n value) rest s h =
    ground (arith, skip-body (varint n value) rest s h)
envelope_step-Follows (delimited n bytes) rest s h =
    ground (arith, decode_delimited bytes rest h.1, skip-body (delimited n bytes) rest s h)
envelope_step-Follows (fixed64 n bytes) rest s h =
    ground (arith, skip-body (fixed64 n bytes) rest s h)
envelope_step-Follows (fixed32 n bytes) rest s h =
    ground (arith, skip-body (fixed32 n bytes) rest s h)

pub response_step-Follows : Follows response_step response_meaning
unfolding response_step response_meaning
response_step-Follows (varint n value) rest r h = rw (decode_varint-varint_bytes value rest h.1)
response_step-Follows (delimited n bytes) rest r h = rw (decode_delimited bytes rest h.1)
response_step-Follows (fixed64 n bytes) rest r h = skip-body (fixed64 n bytes) rest r h
response_step-Follows (fixed32 n bytes) rest r h = skip-body (fixed32 n bytes) rest r h

abbrev PairState : Type 0
PairState = BleResponse × Option (List ℕ)

pub pair_step-Follows : Follows pair_step pair_meaning
unfolding pair_step pair_meaning
pair_step-Follows (varint n value) rest (r, found) h =
    rw (decode_varint-varint_bytes value rest h.1)
pair_step-Follows (delimited n bytes) rest (r, found) h = ground (
  arith,
  decode_delimited bytes rest h.1,
  skip-body {S = PairState} (delimited n bytes) rest (r, found) h,
)
pair_step-Follows (fixed64 n bytes) rest (r, found) h =
    ground (arith, skip-body {S = PairState} (fixed64 n bytes) rest (r, found) h)
pair_step-Follows (fixed32 n bytes) rest (r, found) h =
    ground (arith, skip-body {S = PairState} (fixed32 n bytes) rest (r, found) h)

text_then :
    (r : Result (List ℕ)) (n : ℕ) (p : BlePairMobileResponse) (rest : List ℕ)
    → (r >>= λ text. let q : BlePairMobileResponse × List ℕ = (record_text n text p, rest) in ok q)
      ≡ ((r >>= λ text. ok (record_text n text p)) >>= λ q. ok (q, rest))
text_then (ok text) n p rest = refl
text_then (err e) n p rest = refl
text_then stuck n p rest = refl

pub mobile_pair_step-Follows : Follows mobile_pair_step mobile_pair_meaning
unfolding mobile_pair_step mobile_pair_meaning
mobile_pair_step-Follows (varint n value) rest p h = rw (decode_varint-varint_bytes value rest h.1)
mobile_pair_step-Follows (delimited n bytes) rest p h =
    rw (decode_delimited bytes rest h.1) (text_then (decode_utf8 bytes) n p rest)
mobile_pair_step-Follows (fixed64 n bytes) rest p h = skip-body (fixed64 n bytes) rest p h
mobile_pair_step-Follows (fixed32 n bytes) rest p h = skip-body (fixed32 n bytes) rest p h
