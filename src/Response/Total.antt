-- ===== src/Response/Total.antt =====
-- The decoders end on every payload: no input makes one of their loops run on.
use hymer_connect_ha.Prelude.{
  ℕ, ◌-◌, ◌≢◌, arith, not, Option, none, some, List, [], ◌∷◌, ◌++◌, length, ◌==◌, if◌then◌else◌,
}
use hymer_connect_ha.Prelude.Result.{Result, ok, err, stuck, ◌>>=◌}
use hymer_connect_ha.Prelude.Utf8.{decode_utf8}
use hymer_connect_ha.Prelude.Utf8.Total.{decode_utf8-Leaves}
use hymer_connect_ha.Wire.{decode_varint, decode_length_delimited, skip_protobuf_field}
use hymer_connect_ha.Prelude.Leaves.{Leaves, second, itself, nothing, Leaves-bind, Leaves-ne-stuck}
use hymer_connect_ha.Wire.Reading.{
  decode_varint-Leaves, decode_length_delimited-Leaves, skip_protobuf_field-Leaves,
}
use hymer_connect_ha.Response.{
  BleResponse, BlePairMobileResponse, StepFunction, scan, skip, require, no_response, envelope_step,
  record_number, response_step, pair_step, record_text, mobile_pair_step,
  decode_ble_response_payload, decode_pair_mobile_response_payload,
}
use hymer_connect_ha.Response.Scan.{IsReader, scan-Leaves}

module _ {S : Type 0} where
  skip-Leaves : (w : ℕ) (buffer : List ℕ) (s : S) → Leaves second (length buffer) (skip w buffer s)
  unfolding skip
  skip-Leaves w buffer s =
      Leaves-bind itself second (length buffer) (length buffer) (skip_protobuf_field buffer w) _
        (skip_protobuf_field-Leaves buffer w) (λ rest h. h)

  -- A value is read, and the state is changed by it.
  value-Leaves :
      {A : Type 0} (n : ℕ) (r : Result (A × List ℕ)) (change : A → S)
      → Leaves second (n - 1) r
      → Leaves second n (r >>= λ p. let q : S × List ℕ = (change p.0, p.1) in ok q)
  value-Leaves n (ok p) change h = omega arith
  value-Leaves n (err e) change h = tt
  value-Leaves n stuck change h = h

envelope_step-IsReader : IsReader envelope_step
unfolding envelope_step
envelope_step-IsReader n w buffer s = ground (
  arith,
  skip-Leaves w buffer s,
  value-Leaves (length buffer) (decode_length_delimited buffer) (λ bytes. some bytes)
      (decode_length_delimited-Leaves buffer),
)

response_step-IsReader : IsReader response_step
unfolding response_step
response_step-IsReader n w buffer r = ground (
  arith,
  skip-Leaves w buffer r,
  value-Leaves (length buffer) (decode_length_delimited buffer)
      (λ bytes. record r { topic_fields = r.topic_fields ++ (n ∷ []) })
      (decode_length_delimited-Leaves buffer),
  value-Leaves (length buffer) (decode_varint buffer) (λ v. record_number n v r)
      (decode_varint-Leaves buffer),
)

pair_step-IsReader : IsReader pair_step
unfolding pair_step
pair_step-IsReader n w buffer (r, found) = ground (
  arith,
  skip-Leaves {S = BleResponse × Option (List ℕ)} w buffer (r, found),
  value-Leaves {S = BleResponse × Option (List ℕ)} (length buffer) (decode_varint buffer)
      (λ v. (record_number n v r, found)) (decode_varint-Leaves buffer),
  value-Leaves {S = BleResponse × Option (List ℕ)} (length buffer) (decode_length_delimited buffer)
      (λ bytes. (r, some bytes)) (decode_length_delimited-Leaves buffer),
)

text-Leaves :
    (n field_number : ℕ) (r : Result (List ℕ × List ℕ)) (p : BlePairMobileResponse)
    → Leaves second (n - 1) r
    → Leaves second n (
        r >>= λ v. decode_utf8 v.0 >>= λ text.
        let q : BlePairMobileResponse × List ℕ = (record_text field_number text p, v.1) in ok q)
text-Leaves n field_number (ok (bytes, rest)) p h =
    Leaves-bind nothing second 0 n (decode_utf8 bytes) _ (decode_utf8-Leaves bytes)
      (λ text _. omega arith)
text-Leaves n field_number (err e) p h = tt
text-Leaves n field_number stuck p h = h

mobile_pair_step-IsReader : IsReader mobile_pair_step
unfolding mobile_pair_step
mobile_pair_step-IsReader n w buffer p = ground (
  arith,
  skip-Leaves w buffer p,
  text-Leaves (length buffer) n (decode_length_delimited buffer) p
      (decode_length_delimited-Leaves buffer),
  value-Leaves (length buffer) (decode_varint buffer)
      (λ v. if n == 3 then record p { confirmation_required = not (v == 0) } else p)
      (decode_varint-Leaves buffer),
)

-- A loop with as much fuel as it has bytes, and what comes after it.
loop_then :
    {S T : Type 0} (step : StepFunction S) (payload : List ℕ) (s : S) (k : S → Result T)
    → IsReader step
    → ((s' : S) → Leaves nothing 0 (k s'))
    → Leaves nothing 0 (scan step (length payload) payload s >>= k)
loop_then step payload s k reads h =
    Leaves-bind nothing nothing 0 0 (scan step (length payload) payload s) k
      (scan-Leaves step reads (length payload) payload s (omega arith)) (λ s' _. h s')

require_then :
    {T : Type 0} (found : Option (List ℕ)) (k : List ℕ → Result T)
    → ((payload : List ℕ) → Leaves nothing 0 (k payload))
    → Leaves nothing 0 (require found >>= k)
unfolding require
require_then none k h = tt
require_then (some payload) k h = h payload

-- On every payload the response decoder returns a response or raises: with as much fuel as bytes
-- its loops never run out.
pub decode_ble_response_payload-ne-stuck :
    (payload : List ℕ) → decode_ble_response_payload payload ≢ stuck
unfolding decode_ble_response_payload
decode_ble_response_payload-ne-stuck payload = Leaves-ne-stuck nothing 0 _ (
    loop_then envelope_step payload none _ envelope_step-IsReader (λ found.
      require_then found _ (λ p.
        scan-Leaves response_step response_step-IsReader (length p) p no_response (omega arith))))

-- On every payload the pairing response decoder returns a response or raises: with as much fuel as
-- bytes its loops never run out.
pub decode_pair_mobile_response_payload-ne-stuck :
    (payload : List ℕ) → decode_pair_mobile_response_payload payload ≢ stuck
unfolding decode_pair_mobile_response_payload
decode_pair_mobile_response_payload-ne-stuck payload = Leaves-ne-stuck nothing 0 _ (
    loop_then envelope_step payload none _ envelope_step-IsReader (λ found.
      require_then found _ (λ p.
        loop_then pair_step p (no_response, none) _ pair_step-IsReader
          (λ s. require_then s.1 _ (λ q.
            scan-Leaves mobile_pair_step mobile_pair_step-IsReader (length q) q _ (omega arith))))))
