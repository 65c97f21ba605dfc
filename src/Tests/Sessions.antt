-- ===== src/Tests/Sessions.antt =====
-- A setValues command on a connection where a push arrives before the answer.
use hymer_connect_ha.Prelude.{
  ◌≤◌, ℕ, ◌+◌, ◌≡◌, refl, arith, true, none, some, List, [], ◌∷◌, All, length,
}
use hymer_connect_ha.Prelude.Int.{ℤ, pos}
use hymer_connect_ha.Prelude.Result.{ok}
use hymer_connect_ha.Prelude.Utf8.{encode_utf8}
use hymer_connect_ha.Wire.{
  varint_bytes, varint_loop, encode_length_delimited_field, encode_varint_field,
  encode_string_field, encode_key, encode_varint,
}
use hymer_connect_ha.Wire.Fields.{Field, varint, delimited, message_bytes, field_bytes, IsField}
use hymer_connect_ha.Frame.{encode_ble_pia_frame, build_ble_pia_header, to_bytes_4}
use hymer_connect_ha.Message.{
  app_pia_version, build_set_values_ble_pia_frame, build_set_values_topic, join_values,
  build_topic_frame, build_request_message_with_topic, build_ble_protocol_request_payload,
}
use hymer_connect_ha.Message.Layout.{wrapped, wrapper-bytes, request-not-response}
use hymer_connect_ha.Response.{BleResponse, succeeded, decode_ble_response_payload}
use hymer_connect_ha.Response.Envelope.{
  last_varint, last_delimited, delimited_numbers, decode_ble_response_payload-message,
}
use hymer_connect_ha.Transport.{max_pia_frame}
use hymer_connect_ha.Transport.Delivery.{stream}
use hymer_connect_ha.Session.{plaintext, Stream, Connection, connected, judge_response, has_id}
use hymer_connect_ha.Session.Requests.{send_values}
use hymer_connect_ha.Session.Answer
use hymer_connect_ha.Session.Delivery
use hymer_connect_ha.Session.Total
use hymer_connect_ha.Prelude.{◌≢◌}
use hymer_connect_ha.Prelude.Result.{stuck}
use hymer_connect_ha.Session.Requests.{send_frame_await_response}
use hymer_connect_ha.Session.Delivery.{PassedOver}

abbrev total : List ℕ → ℕ
total [] = 0
total (b ∷ bytes) = b + total bytes

abbrev up : Connection
up = record { has_client = true; is_connected = true; has_tls = true; handshake_complete = true }

is_up : connected up ≡ true
unfolding connected
is_up = refl

abbrev switch_values : List (List ℕ)
switch_values = (8 ∷ 1 ∷ 16 ∷ 11 ∷ 40 ∷ 1 ∷ []) ∷ []

sent :
    (built : List ℕ × ℤ) × (build_set_values_ble_pia_frame total
        (pos 7)
        (pos 100)
        switch_values
        none
        none
        app_pia_version
      ≡ ok built)
unfolding build_set_values_ble_pia_frame build_set_values_topic join_values build_topic_frame
    build_request_message_with_topic build_ble_protocol_request_payload
    encode_length_delimited_field encode_varint_field encode_string_field encode_key encode_varint
    encode_utf8 encode_ble_pia_frame build_ble_pia_header to_bytes_4 varint_bytes varint_loop
sent = (_, refl)

-- A request is pushed, and then the answer arrives.
abbrev pushed : List ℕ
pushed = wrapped 1 (8 ∷ 1 ∷ [])

abbrev answer_fields : List Field
answer_fields = varint 1 7 ∷ varint 2 1 ∷ []

abbrev answer_envelope : List Field
answer_envelope = delimited 2 (message_bytes answer_fields) ∷ []

abbrev answered : BleResponse
answered = record { request_id = some 7; status = some 1; timestamp = none; topic_fields = [] }

envelope_fits : All IsField answer_envelope
unfolding message_bytes field_bytes varint_bytes varint_loop
envelope_fits = ((omega arith, omega arith), tt)

fields_fit : All IsField answer_fields
fields_fit = ((omega arith, omega arith), ((omega arith, omega arith), tt))

answer_decoded : decode_ble_response_payload (message_bytes answer_envelope) ≡ ok answered
unfolding last_varint last_delimited delimited_numbers
answer_decoded =
    decode_ble_response_payload-message answer_envelope answer_fields envelope_fits fields_fit refl

push_passed : PassedOver total (pos 7) pushed
unfolding judge_response
push_passed =
    rw (request-not-response (8 ∷ 1 ∷ []) pushed (omega arith) (wrapper-bytes (8 ∷ 1 ∷ [])))

payloads_fit : All (λ p. length p ≤ max_pia_frame) (pushed ∷ message_bytes answer_envelope ∷ [])
unfolding message_bytes field_bytes varint_bytes varint_loop
payloads_fit = (omega arith, (omega arith, tt))

abbrev arriving : Stream
arriving = record {
  frame_buffer = [];
  pending_frames = [];
  events = plaintext (stream total (pushed ∷ message_bytes answer_envelope ∷ []) ∷ []) ∷ [];
}

abbrev left_over : Stream
left_over = record { frame_buffer = []; pending_frames = []; events = [] }

send_values_returned_example :
    send_values total (pos 7) (pos 100) up switch_values none arriving
    ≡ (ok (succeeded answered), left_over)
unfolding has_id
send_values_returned_example =
    Delivery.send_values_returned total (pos 7) (pos 100) up switch_values sent.0 (pushed ∷ []) []
      (message_bytes answer_envelope) answered [] is_up sent.1 payloads_fit (push_passed, tt)
      answer_decoded refl

send_values-Answers_example :
    (connected up ≡ true)
    × ((r : BleResponse) × Answer.Answers total (pos 7) arriving r
        × (succeeded r ≡ succeeded answered))
send_values-Answers_example =
    Answer.send_values-Answers total (pos 7) (pos 100) up switch_values none arriving left_over
      (succeeded answered) send_values_returned_example

send_frame_await_response-ne-stuck_example :
    (send_frame_await_response total up (pos 7) none arriving).0 ≢ stuck
send_frame_await_response-ne-stuck_example =
    Total.send_frame_await_response-ne-stuck total up (pos 7) none arriving
