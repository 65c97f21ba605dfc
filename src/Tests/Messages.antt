-- ===== src/Tests/Messages.antt =====
-- Requests, responses and protobuf fields of a few bytes.
use hymer_connect_ha.Prelude.{
  ℕ, ◌+◌, ◌^◌, ◌<◌, ◌≡◌, ◌≢◌, refl, arith, some, List, [], ◌∷◌, ◌++◌, map, length, All,
}
use hymer_connect_ha.Prelude.Int.{pos}
use hymer_connect_ha.Prelude.Result.{ok, err, value_error}
use hymer_connect_ha.Wire.{varint_bytes, varint_loop, decode_varint}
use hymer_connect_ha.Prelude.{inl}
use hymer_connect_ha.Prelude.Utf8.{encode_utf8, IsScalar}
use hymer_connect_ha.Prelude.Utf8.RoundTrip.{utf8}
use hymer_connect_ha.Wire.Varint
use hymer_connect_ha.Wire.Varint.{Takes}
use hymer_connect_ha.Wire.Fields.{Field, varint, delimited, IsField, field_bytes, message_bytes}
use hymer_connect_ha.Frame.RoundTrip.{frame_of}
use hymer_connect_ha.Message.{app_pia_version, build_set_values_ble_pia_frame}
use hymer_connect_ha.Message.Layout
use hymer_connect_ha.Message.Layout.{wrapped, request_payload}
use hymer_connect_ha.Response.{decode_ble_response_payload}
use hymer_connect_ha.Response.Envelope
use hymer_connect_ha.Response.Envelope.{last_delimited, last_varint, delimited_numbers}

abbrev bytes_sum : List ℕ → ℕ
bytes_sum [] = 0
bytes_sum (b ∷ bytes) = b + bytes_sum bytes

decode_varint-varint_bytes_example : decode_varint (varint_bytes 300 ++ (9 ∷ [])) ≡ ok (300, 9 ∷ [])
decode_varint-varint_bytes_example = Varint.decode_varint-varint_bytes 300 (9 ∷ []) (omega arith)

request-not-response_example :
    decode_ble_response_payload (wrapped 1 (8 ∷ 1 ∷ [])) ≡ err value_error
request-not-response_example =
    Layout.request-not-response (8 ∷ 1 ∷ []) (wrapped 1 (8 ∷ 1 ∷ [])) (omega arith)
      (Layout.wrapper-bytes (8 ∷ 1 ∷ []))

abbrev one_value : List (List ℕ)
one_value = (8 ∷ 1 ∷ 16 ∷ 11 ∷ 40 ∷ 1 ∷ []) ∷ []

abbrev one_payload : List ℕ
one_payload =
    request_payload 4 (wrapped 2 (message_bytes (map (delimited 1) one_value))) 7 100
      app_pia_version

measured : length one_payload ≡ 27
unfolding message_bytes field_bytes varint_bytes varint_loop utf8 encode_utf8
measured = refl

one_payload_short : length one_payload < 2 ^ 32
one_payload_short = omega (arith, measured)

some_values : one_value ≢ []
some_values e = cc

version_scalars : All IsScalar app_pia_version
version_scalars = (
  inl (omega arith),
  (
    inl (omega arith),
    (
      inl (omega arith),
      (inl (omega arith), (inl (omega arith), (inl (omega arith), (inl (omega arith), tt)))),
    ),
  ),
)

set_values_frame-bytes_example :
    build_set_values_ble_pia_frame bytes_sum
      (pos 0)
      (pos 0)
      one_value
      (some (pos 7))
      (some (pos 100))
      app_pia_version
    ≡ ok (frame_of bytes_sum one_payload, pos 7)
set_values_frame-bytes_example =
    Layout.set_values_frame-bytes bytes_sum (pos 0) (pos 0) one_value 7 100 app_pia_version
      some_values version_scalars one_payload_short

abbrev response_fields : List Field
response_fields = varint 1 7 ∷ varint 2 5 ∷ varint 3 100 ∷ varint 2 1 ∷ delimited 8 [] ∷ []

abbrev outer_fields : List Field
outer_fields = varint 9 1 ∷ delimited 2 (message_bytes response_fields) ∷ []

outer_fits : All IsField outer_fields
unfolding message_bytes field_bytes varint_bytes varint_loop
outer_fits = ((omega arith, omega arith), ((omega arith, omega arith), tt))

response_fits : All IsField response_fields
response_fits = (
  (omega arith, omega arith),
  (
    (omega arith, omega arith),
    ((omega arith, omega arith), ((omega arith, omega arith), ((omega arith, omega arith), tt))),
  ),
)

found_response : last_delimited 2 outer_fields ≡ some (message_bytes response_fields)
unfolding last_delimited
found_response = refl

decode_ble_response_payload-message_example :
    decode_ble_response_payload (message_bytes outer_fields)
    ≡ ok (record {
      request_id = last_varint 1 response_fields;
      status = last_varint 2 response_fields;
      timestamp = last_varint 3 response_fields;
      topic_fields = delimited_numbers response_fields;
    })
decode_ble_response_payload-message_example =
    Envelope.decode_ble_response_payload-message outer_fields response_fields outer_fits
      response_fits found_response
