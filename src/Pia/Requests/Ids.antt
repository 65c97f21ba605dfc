-- ===== src/Pia/Requests/Ids.antt =====
-- The id that is found in a built request is the id that it was built with.
use hymer_connect_ha.Prelude.{
  ℕ, zero, suc, ◌≤◌, ◌<◌, ◌≡◌, ◌∙◌, arith, Option, Bool, some, List, [], ◌∷◌, length, lt→ltb, ap,
  sym,
}
use hymer_connect_ha.Prelude.Int.{ℤ, pos}
use hymer_connect_ha.Prelude.Result.{Result, ok, err, stuck, ◌>>=◌, ok-injective}
use hymer_connect_ha.Wire.Fields.{delimited, message_bytes}
use hymer_connect_ha.Pia.Wire.{Floats, encode_bytes_field, first_number}
use hymer_connect_ha.Pia.Wire.Decoding.{decode_protobuf-message_bytes}
use hymer_connect_ha.Pia.Envelopes.{
  RequestMessage, request_or_nested, find_nested, find_request, find_request_message,
  extract_request_id_from_payload, nonzero_id,
}
use hymer_connect_ha.Pia.Requests.{
  request_wrapper, build_light_command, build_subscription_request, build_refresh_command,
  SensorCommand, build_multi_sensor_command, sensor_entry, light_value, sensor_entries,
}
use hymer_connect_ha.Pia.Requests.Bytes.{
  wrapper_fields, one_field, length-one_field, request_wrapper-bytes, length-wrapper,
}

module _ (floats : Floats) where
  wrapper_found :
      (levels id time n : ℕ) (topic : List ℕ)
      → find_request floats (suc levels) (message_bytes (wrapper_fields id time n topic))
        ≡ some (record { request_id = id; timestamp = time })
  unfolding find_request first_number request_or_nested
  wrapper_found levels id time n topic = rw (
      decode_protobuf-message_bytes floats (wrapper_fields id time n topic)
        (tt, (tt, (tt, (tt, tt)))))

  below_found :
      (levels : ℕ) (w : List ℕ) (r : RequestMessage)
      → 2 < length w
      → find_request floats levels w ≡ some r
      → find_request floats (suc levels) (message_bytes (delimited 2 w ∷ [])) ≡ some r
  unfolding find_request first_number request_or_nested find_nested
  below_found levels w r h e =
      rw (decode_protobuf-message_bytes floats (delimited 2 w ∷ []) (tt, tt))
        (rw (lt→ltb 2 (length w) h, e))

  envelope_found :
      (levels id time n : ℕ) (topic : List ℕ)
      → 2 ≤ levels
      → find_request floats levels
          (message_bytes (delimited 2 (message_bytes (wrapper_fields id time n topic)) ∷ []))
        ≡ some (record { request_id = id; timestamp = time })
  envelope_found zero id time n topic h = absurd (omega arith)
  envelope_found (suc zero) id time n topic h = absurd (omega arith)
  envelope_found (suc (suc levels)) id time n topic h =
      below_found (suc levels) (message_bytes (wrapper_fields id time n topic)) _
        (omega (arith, length-wrapper id time n topic)) (wrapper_found levels id time n topic)

  -- base64, as far as requests need it: what is encoded is decoded again.
  module _ (b64encode : List ℕ → List ℕ) (b64decode : List ℕ → Option (List ℕ)) where
    abbrev pub DecodesAgain : Type 0
    DecodesAgain = (bytes : List ℕ) → b64decode (b64encode bytes) ≡ some bytes

    decoded_id :
        (text raw : List ℕ)
        → b64decode text ≡ some raw
        → extract_request_id_from_payload floats b64decode text
          ≡ nonzero_id (find_request floats (suc (length raw)) raw)
    unfolding extract_request_id_from_payload find_request_message
    decoded_id text raw e = rw (e, extract_request_id_from_payload)

    positive_id :
        (id time : ℕ)
        → 1 ≤ id
        → nonzero_id (some (record { request_id = id; timestamp = time })) ≡ some id
    unfolding nonzero_id
    positive_id id time h = ground arith

    -- Every envelope shows its id.
    pub envelope_id :
        (id time n : ℕ) (topic : List ℕ)
        → DecodesAgain
        → 1 ≤ id
        → extract_request_id_from_payload floats b64decode
            (b64encode (encode_bytes_field 2 (request_wrapper (pos id) (pos time) n topic)))
          ≡ some id
    envelope_id id time n topic again positive =
        let w = message_bytes (wrapper_fields id time n topic) in
        let raw = message_bytes (delimited 2 w ∷ []) in
        rw (request_wrapper-bytes id time n topic, one_field 2 w)
          (decoded_id (b64encode raw) raw (again raw)
            ∙ rw
                (envelope_found (suc (length raw)) id time n topic
                  (omega (arith, length-one_field 2 w)))
                (positive_id id time positive))

    -- A command whose value was encoded shows its id.
    sent_id :
        (id time : ℕ) (value : Result (List ℕ)) (topic : List ℕ → List ℕ) (command : List ℕ)
        → DecodesAgain
        → 1 ≤ id
        → (value >>= λ v.
            ok (b64encode (encode_bytes_field 2 (request_wrapper (pos id) (pos time) 4 (topic v)))))
          ≡ ok command
        → extract_request_id_from_payload floats b64decode command ≡ some id
    sent_id id time (ok v) topic command again positive e =
        ap (extract_request_id_from_payload floats b64decode) (sym (ok-injective e))
        ∙ envelope_id id time 4 (topic v) again positive
    sent_id id time (err x) topic command again positive e = cc
    sent_id id time stuck topic command again positive e = cc

    -- For every choice of float operations and a base64 that decodes what it encodes: where a light
    -- command is built with a request id of at least 1 and a natural time, whatever its bus, sensor
    -- and value, the id that is extracted from it is that request id.
    pub extract-build_light_command :
        (bus_id sensor_id : ℤ) (b : Option Bool) (u : Option ℤ) (s : Option (List ℕ)) (id time : ℕ)
        (command : List ℕ)
        → DecodesAgain
        → 1 ≤ id
        → build_light_command b64encode bus_id sensor_id b u s (pos id) (pos time) ≡ ok command
        → extract_request_id_from_payload floats b64decode command ≡ some id
    unfolding build_light_command
    extract-build_light_command bus_id sensor_id b u s id time command again positive e =
        sent_id id time (light_value b u s)
          (λ value.
            encode_bytes_field 2 (encode_bytes_field 1 (sensor_entry bus_id sensor_id value)))
          command again positive e

    -- For every choice of float operations and a base64 that decodes what it encodes: where a
    -- multi-sensor command is built with a request id of at least 1 and a natural time, the id that
    -- is extracted from it is that request id.
    pub extract-build_multi_sensor_command :
        (sensors : List (SensorCommand floats)) (id time : ℕ) (command : List ℕ)
        → DecodesAgain
        → 1 ≤ id
        → build_multi_sensor_command floats b64encode sensors (pos id) (pos time) ≡ ok command
        → extract_request_id_from_payload floats b64decode command ≡ some id
    unfolding build_multi_sensor_command
    extract-build_multi_sensor_command sensors id time command again positive e =
        sent_id id time (sensor_entries floats sensors) (encode_bytes_field 2) command again
          positive e

    -- For every choice of float operations and a base64 that decodes what it encodes: where a
    -- refresh command is built with a request id of at least 1 and a natural time, whatever id is
    -- drawn, the id that is extracted from it is that request id.
    pub extract-build_refresh_command :
        (id time : ℕ) (drawn : ℤ)
        → DecodesAgain
        → 1 ≤ id
        → extract_request_id_from_payload floats b64decode
            (build_refresh_command b64encode (pos id) drawn (pos time))
          ≡ some id
    unfolding build_refresh_command build_subscription_request
    extract-build_refresh_command id time drawn again positive =
        envelope_id id time 9 [] again positive
