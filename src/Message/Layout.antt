-- ===== src/Message/Layout.antt =====
-- The builders against an abstract view: the fields that a request consists of.
use mathlib.Core.List.{append-nil}
use hymer_connect_ha.Prelude.{
  arith, ◌∙◌, sym, ◌^◌, ◌<◌, ◌≢◌, length, if◌then◌else◌, ◌∷◌, map, All, ◌≡◌, refl,
}
use hymer_connect_ha.Prelude.Int.{ℤ, pos}
use hymer_connect_ha.Prelude.Result.{ok-injective, ok, err, value_error}
use hymer_connect_ha.Prelude.Utf8.{IsScalar}
use hymer_connect_ha.Prelude.Utf8.RoundTrip.{utf8}
use hymer_connect_ha.Wire.Fields.{
  Field, varint, delimited, field_bytes, message_bytes, encode_varint_field-bytes,
  encode_delimited-bytes, encode_bool_field-bytes, encode_string_field-bytes,
}
use hymer_connect_ha.Frame.RoundTrip.{frame_of, encode-eq-frame_of}
use hymer_connect_ha.Response.{decode_ble_response_payload}
use hymer_connect_ha.Response.Envelope.{last_delimited, decode_ble_response_payload-no_response}
use hymer_connect_ha.Message.{
  some, [], List, Bool, ℕ, Str, build_request_message_with_topic,
  build_ble_protocol_request_payload, join_values, build_set_values_topic, build_restart_topic,
  build_topic_frame, build_set_values_ble_pia_frame,
}

-- A request envelope around a topic.
abbrev pub request_fields : ℕ → List ℕ → ℕ → ℕ → Str → List Field
request_fields topic_number topic id time version =
    varint 1 id ∷ delimited 2 (utf8 version) ∷ varint 3 time ∷ delimited topic_number topic ∷ []

-- The bytes of a message of one field.
abbrev pub wrapped : ℕ → List ℕ → List ℕ
wrapped n bytes = message_bytes (delimited n bytes ∷ [])

module _ (id time : ℕ) where
  pub request-bytes :
      (topic_number : ℕ) (topic : List ℕ) (version : Str)
      → All IsScalar version
      → build_request_message_with_topic topic_number topic (pos id) (pos time) version
        ≡ ok (message_bytes (request_fields topic_number topic id time version))
  unfolding build_request_message_with_topic message_bytes
  request-bytes topic_number topic version h =
      rw
        (
          encode_varint_field-bytes 1 id,
          encode_string_field-bytes 2 version h,
          encode_varint_field-bytes 3 time,
          encode_delimited-bytes topic_number topic,
        )
        (rw append-nil)

pub wrapper-bytes :
    (message : List ℕ) → build_ble_protocol_request_payload message ≡ ok (wrapped 1 message)
unfolding build_ble_protocol_request_payload message_bytes
wrapper-bytes message = rw (encode_delimited-bytes 1 message) (rw append-nil)

join_values-bytes :
    (values : List (List ℕ)) → join_values values ≡ ok (message_bytes (map (delimited 1) values))
unfolding join_values message_bytes
join_values-bytes [] = refl
join_values-bytes (v ∷ values) = rw (encode_delimited-bytes 1 v, join_values-bytes values)

pub set_values_topic-bytes :
    (values : List (List ℕ))
    → values ≢ []
    → build_set_values_topic values ≡ ok (wrapped 2 (message_bytes (map (delimited 1) values)))
unfolding build_set_values_topic message_bytes
set_values_topic-bytes [] h = absurd (h refl)
set_values_topic-bytes (v ∷ values) h =
    rw (join_values-bytes (v ∷ values)) (
      rw (encode_delimited-bytes 2 (message_bytes (map (delimited 1) (v ∷ values))))
        (rw append-nil))

pub restart_topic-bytes :
    (cold : Bool)
    → build_restart_topic cold
      ≡ ok (wrapped 2 (message_bytes (varint 1 (if cold then 1 else 0) ∷ [])))
unfolding build_restart_topic message_bytes
restart_topic-bytes cold = rw (encode_bool_field-bytes 1 cold) (
    rw (encode_delimited-bytes 2 (field_bytes (varint 1 (if cold then 1 else 0))))
      (simp append-nil))

-- The payload of a request with a topic.
abbrev pub request_payload : ℕ → List ℕ → ℕ → ℕ → Str → List ℕ
request_payload topic_number topic id time version =
    wrapped 1 (message_bytes (request_fields topic_number topic id time version))

-- What the request wrapper returns for a message shorter than 2 ^ 70 bytes is refused with
-- ValueError by the response decoder: a request is never read as a response.
pub request-not-response :
    (message payload : List ℕ)
    → length message < 2 ^ 70
    → build_ble_protocol_request_payload message ≡ ok payload
    → decode_ble_response_payload payload ≡ err value_error
unfolding last_delimited
request-not-response message payload h e =
    let same : wrapped 1 message ≡ payload = ok-injective (sym (wrapper-bytes message) ∙ e) in
    rw (← same)
      (decode_ble_response_payload-no_response (delimited 1 message ∷ []) (omega arith) refl)

module _ (crc32 : List ℕ → ℕ) (drawn now : ℤ) where
  topic_frame-bytes :
      (topic_number : ℕ) (topic : List ℕ) (id time : ℕ) (version : Str)
      → All IsScalar version
      → length (request_payload topic_number topic id time version) < 2 ^ 32
      → build_topic_frame crc32 drawn now topic_number topic (pos id) (some (pos time)) version
        ≡ ok (frame_of crc32 (request_payload topic_number topic id time version))
  unfolding build_topic_frame
  topic_frame-bytes topic_number topic id time version hv hl =
      rw (request-bytes id time topic_number topic version hv) (
        rw (wrapper-bytes (message_bytes (request_fields topic_number topic id time version)))
          (encode-eq-frame_of crc32 (request_payload topic_number topic id time version) hl))

  -- For every CRC function, values that are not an empty list, a natural request id and timestamp
  -- and a version of Unicode scalars, where the payload is shorter than 2 ^ 32: the setValues
  -- builder returns the frame of a protobuf message whose field 1 holds id, version, timestamp and
  -- topic 4, the topic holding the values one by one under fields 2 and 1; and it returns the
  -- request id that the frame carries.
  pub set_values_frame-bytes :
      (values : List (List ℕ)) (id time : ℕ) (version : Str)
      → values ≢ []
      → All IsScalar version
      → length
          (request_payload 4 (wrapped 2 (message_bytes (map (delimited 1) values))) id time version)
        < 2 ^ 32
      → build_set_values_ble_pia_frame crc32 drawn now values
          (some (pos id))
          (some (pos time))
          version
        ≡ ok (
          frame_of crc32 (
              request_payload 4
                (wrapped 2 (message_bytes (map (delimited 1) values)))
                id
                time
                version),
          pos id,
        )
  unfolding build_set_values_ble_pia_frame
  set_values_frame-bytes values id time version ne hv hl =
      let topic = wrapped 2 (message_bytes (map (delimited 1) values)) in
      rw (set_values_topic-bytes values ne) (rw (topic_frame-bytes 4 topic id time version hv hl))
