-- ===== src/Response.antt =====
-- The response decoders of ble_pia.py. Their `while offset < len(payload)` loops read a key and then
-- act on it; `scan` is that loop, on fuel, and a step function is a loop's body behind the key.
pub mod Scan
pub mod Meaning
pub mod Total
pub mod Envelope
use hymer_connect_ha.Prelude.{
  ℕ, zero, suc, ◌/◌, ◌^◌, bit_and, Bool, true, false, not, ◌&&◌, ◌||◌, Option, none, some, List, [],
  ◌∷◌, ◌++◌, length, ◌==◌, if◌then◌else◌,
}
use hymer_connect_ha.Prelude.Result.{Result, ok, err, stuck, value_error, ◌>>=◌}
use hymer_connect_ha.Prelude.Utf8.{decode_utf8}
use hymer_connect_ha.Wire.{
  decode_varint, decode_length_delimited, skip_protobuf_field, wire_varint, wire_len,
}
use hymer_connect_ha.Frame.{BlePiaFrame, decode_ble_pia_frame}

pub record BleResponse : Type 0 where
  pub request_id : Option ℕ
  pub status : Option ℕ
  pub timestamp : Option ℕ
  pub topic_fields : List ℕ

-- An absent status and 0 mean success too.
pub succeeded : BleResponse → Bool
succeeded r = elim r.status [ none ↦ true | some status ↦ status == 0 || status == 1 ]

pub record BlePairMobileResponse : Type 0 where
  pub remote_access_token : List ℕ
  pub remote_access_refresh_token : List ℕ
  pub confirmation_required : Bool
  pub request_id : Option ℕ
  pub status : Option ℕ
  pub timestamp : Option ℕ

-- Of a field's number, its wire type, the buffer behind the key and the variables of the loop.
abbrev pub StepFunction : Type 0 → Type 0
StepFunction S = ℕ → ℕ → List ℕ → S → Result (S × List ℕ)

pub scan : {S : Type 0} → StepFunction S → ℕ → List ℕ → S → Result S
scan step fuel [] s = ok s
scan step zero (b ∷ buffer) s = stuck
scan step (suc fuel) (b ∷ buffer) s = do
  (key, rest) ← decode_varint (b ∷ buffer)
  (s', rest') ← step (key / 2 ^ 3) (bit_and key 0x07) rest s
  scan step fuel rest' s'

-- `continue` after `_skip_protobuf_field`.
pub skip : {S : Type 0} → ℕ → List ℕ → S → Result (S × List ℕ)
skip wire_type buffer s = do rest ← skip_protobuf_field buffer wire_type; ok (s, rest)

-- The first loop of both decoders: the last `BleProtocol.response`.
pub envelope_step : StepFunction (Option (List ℕ))
unfolding skip
envelope_step field_number wire_type buffer s =
    if field_number == 2 && wire_type == wire_len
    then (do (payload, rest) ← decode_length_delimited buffer; ok (some payload, rest))
    else skip wire_type buffer s

pub require : Option (List ℕ) → Result (List ℕ)
require none = err value_error
require (some payload) = ok payload

unfoldable pub record_number : ℕ → ℕ → BleResponse → BleResponse
record_number field_number value r =
    if field_number == 1
    then record r { request_id = some value }
    else if field_number == 2
    then record r { status = some value }
    else if field_number == 3
    then record r { timestamp = some value }
    else r

pub response_step : StepFunction BleResponse
unfolding skip record_number
response_step field_number wire_type buffer r =
    if wire_type == wire_varint
    then (do (value, rest) ← decode_varint buffer; ok (record_number field_number value r, rest))
    else if wire_type == wire_len
    then (do
      (_, rest) ← decode_length_delimited buffer
      ok (record r { topic_fields = r.topic_fields ++ (field_number ∷ []) }, rest))
    else skip wire_type buffer r

abbrev pub no_response : BleResponse
no_response = record { request_id = none; status = none; timestamp = none; topic_fields = [] }

pub decode_ble_response_payload : List ℕ → Result BleResponse
decode_ble_response_payload payload = do
  found ← scan envelope_step (length payload) payload none
  response_payload ← require found
  scan response_step (length response_payload) response_payload no_response

-- The second loop of `decode_pair_mobile_response_payload`.
pub pair_step : StepFunction (BleResponse × Option (List ℕ))
unfolding skip record_number
pair_step field_number wire_type buffer (r, mobile_pair) =
    if wire_type == wire_varint
    then (do
      (value, rest) ← decode_varint buffer
      ok ((record_number field_number value r, mobile_pair), rest))
    else if field_number == 9 && wire_type == wire_len
    then (do (payload, rest) ← decode_length_delimited buffer; ok ((r, some payload), rest))
    else skip wire_type buffer (r, mobile_pair)

-- Its third loop, over the mobilePair body.
unfoldable pub record_text : ℕ → List ℕ → BlePairMobileResponse → BlePairMobileResponse
record_text field_number text p =
    if field_number == 1
    then record p { remote_access_token = text }
    else if field_number == 2
    then record p { remote_access_refresh_token = text }
    else p

pub mobile_pair_step : StepFunction BlePairMobileResponse
unfolding skip record_text
mobile_pair_step field_number wire_type buffer p =
    if wire_type == wire_len
    then (do
      (value, rest) ← decode_length_delimited buffer
      text_value ← decode_utf8 value
      ok (record_text field_number text_value p, rest))
    else if wire_type == wire_varint
    then (do
      (value, rest) ← decode_varint buffer
      ok (
        if field_number == 3 then record p { confirmation_required = not (value == 0) } else p,
        rest,
      ))
    else skip wire_type buffer p

pub decode_pair_mobile_response_payload : List ℕ → Result BlePairMobileResponse
decode_pair_mobile_response_payload payload = do
  found ← scan envelope_step (length payload) payload none
  response_payload ← require found
  (r, mobile_pair) ← scan pair_step (length response_payload) response_payload (no_response, none)
  mobile_pair_payload ← require mobile_pair
  scan mobile_pair_step (length mobile_pair_payload) mobile_pair_payload (record {
    remote_access_token = [];
    remote_access_refresh_token = [];
    confirmation_required = false;
    request_id = r.request_id;
    status = r.status;
    timestamp = r.timestamp;
  })

module _ (crc32 : List ℕ → ℕ) where
  unfoldable pub decode_ble_response_frame : Bool → List ℕ → Result BleResponse
  decode_ble_response_frame validate_crc frame = do
    f ← decode_ble_pia_frame crc32 validate_crc frame
    decode_ble_response_payload f.payload

  pub decode_pair_mobile_response_frame : Bool → List ℕ → Result BlePairMobileResponse
  decode_pair_mobile_response_frame validate_crc frame = do
    f ← decode_ble_pia_frame crc32 validate_crc frame
    decode_pair_mobile_response_payload f.payload
