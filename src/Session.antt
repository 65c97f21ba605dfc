-- ===== src/Session.antt =====
-- The requests of HymerBleTransport in ble_transport.py, on one connection: a request is written, and
-- frames are taken from the stream until the response with its id arrives.
-- What the radio and TLS do is a list of events, one for each notification that `_next_uart` waits for;
-- where the list ends, the deadline passes. TLS and the GATT writes are not modelled: an event is the
-- plaintext chunks that `feed_encrypted` gives, or the exception of TLS or of a write.
pub mod Requests
pub mod Waiting
pub mod Answer
pub mod Delivery
pub mod Total
pub mod Pairing
use hymer_connect_ha.Prelude.{
  ◌||◌, ℕ, ◌+◌, Bool, true, false, ◌&&◌, Option, none, some, List, [], ◌∷◌, ◌++◌, ◌==◌,
  if◌then◌else◌,
}
use hymer_connect_ha.Prelude.Int.{negsuc, ℤ, pos}
use hymer_connect_ha.Prelude.Result.{
  Error, value_error, overflow_error, transport_error, timeout_error, tls_error, Result, ok, err,
  stuck, ◌>>=◌,
}
use hymer_connect_ha.Message.{
  Str, ComponentValue, build_connected_component_value, build_set_values_ble_pia_frame,
  build_pair_mobile_ble_pia_frame, build_pair_mobile_confirmation_ble_pia_frame, app_pia_version,
}
use hymer_connect_ha.Response.{
  BleResponse, BlePairMobileResponse, succeeded, decode_ble_response_frame,
  decode_pair_mobile_response_frame,
}
use hymer_connect_ha.Transport.{feed_frames}

pub data Event : Type 0 where
  plaintext : List (List ℕ) → Event
  fails : Error → Event

-- What a wait leaves: the frame buffer, the pending frames and the events still to come.
pub record Stream : Type 0 where
  pub frame_buffer : List ℕ
  pub pending_frames : List (List ℕ)
  pub events : List Event

-- What became of a wait.
abbrev pub Waited : Type 0 → Type 0
Waited A = Result A × Stream

-- The loop over the chunks of an event: the frames are appended, until a chunk raises.
unfoldable pub feed_chunks :
    List ℕ → List (List ℕ) → List (List ℕ) → Result (List (List ℕ)) × List ℕ × List (List ℕ)
feed_chunks buffer pending [] = (ok pending, buffer, pending)
feed_chunks buffer pending (chunk ∷ chunks) =
    let (r, left) = feed_frames buffer chunk in
    elim r [
      | ok frames ↦ feed_chunks left (pending ++ frames) chunks
      | err e ↦ (err e, left, pending)
      | stuck ↦ (stuck, left, pending)
    ]

module _ {A : Type 0} (judge : List ℕ → Option (Result A)) where
  -- The pending frames are taken one by one; `judge` is none where the loop goes on.
  unfoldable pub first_answer : List (List ℕ) → Option (Result A × List (List ℕ))
  first_answer [] = none
  first_answer (frame ∷ frames) =
      let later = first_answer frames in
      elim (judge frame) [ none ↦ later | some r ↦ some (r, frames) ]

  -- An event is fed, and then the loop goes on, which is `await`.
  unfoldable pub after_event :
      (List ℕ → List (List ℕ) → Waited A) → List Event → List ℕ → Event → Waited A
  after_event await events buffer (fails e) =
      (err e, record { frame_buffer = buffer; pending_frames = []; events = events })
  after_event await events buffer (plaintext chunks) =
      let (r, left, pending) = feed_chunks buffer [] chunks in
      elim r [
        | ok frames ↦ await left frames
        | err e ↦ (err e, record { frame_buffer = left; pending_frames = pending; events = events })
        | stuck ↦ (stuck, record { frame_buffer = left; pending_frames = pending; events = events })
      ]

  -- `_next_frame` and the loop around it.
  unfoldable pub await_answer : List Event → List ℕ → List (List ℕ) → Waited A
  await_answer [] buffer pending = elim (first_answer pending) [
    | none ↦
        (err transport_error, record { frame_buffer = buffer; pending_frames = []; events = [] })
    | some (r, rest) ↦ (r, record { frame_buffer = buffer; pending_frames = rest; events = [] })
  ]
  await_answer (event ∷ events) buffer pending =
      let later = after_event (await_answer events) events buffer event in
      elim (first_answer pending) [
        | none ↦ later
        | some (r, rest) ↦
            (r, record { frame_buffer = buffer; pending_frames = rest; events = event ∷ events })
      ]

-- `response.request_id == request_id`
unfoldable pub has_id : ℤ → Option ℕ → Bool
has_id (pos id) (some n) = n == id
has_id (pos id) none = false
has_id (negsuc id) found = false

-- `status not in (None, 0, PIA_STATUS_SUCCESS)` is false.
unfoldable pub accepted_status : Option ℕ → Bool
accepted_status none = true
accepted_status (some status) = status == 0 || status == 1

-- A ValueError of the decoder passes the frame over.
unfoldable pub judge_response : ℤ → Result BleResponse → Option (Result BleResponse)
judge_response id (ok response) = if has_id id response.request_id then some (ok response) else none
judge_response id (err value_error) = none
judge_response id (err overflow_error) = some (err overflow_error)
judge_response id (err transport_error) = some (err transport_error)
judge_response id (err timeout_error) = some (err timeout_error)
judge_response id (err tls_error) = some (err tls_error)
judge_response id stuck = some stuck

-- The frame with the id is decoded once more, and that may raise.
unfoldable pub judge_pair :
    ℤ → Result BlePairMobileResponse → Result BleResponse → Option (Result BlePairMobileResponse)
judge_pair id pair (ok response) = if has_id id response.request_id then some pair else none
judge_pair id pair (err value_error) = none
judge_pair id pair (err overflow_error) = some (err overflow_error)
judge_pair id pair (err transport_error) = some (err transport_error)
judge_pair id pair (err timeout_error) = some (err timeout_error)
judge_pair id pair (err tls_error) = some (err tls_error)
judge_pair id pair stuck = some stuck

-- The client, and the TLS session.
pub record Connection : Type 0 where
  pub has_client : Bool
  pub is_connected : Bool
  pub has_tls : Bool
  pub handshake_complete : Bool

unfoldable pub tls_established : Connection → Bool
tls_established c = c.has_tls && c.handshake_complete

unfoldable pub connected : Connection → Bool
connected c = c.has_client && c.is_connected && c.has_tls && c.handshake_complete

-- `_write_plaintext`, where `write_error` is what TLS or the GATT writes raise.
unfoldable pub write_plaintext : Connection → Option Error → Result Bool
write_plaintext c write_error =
    if tls_established c
    then elim write_error [ none ↦ ok true | some e ↦ err e ]
    else err transport_error

-- What comes after a step that has not touched the stream.
unfoldable pub and_then {ℓ} :
    {A : Type ℓ} {B : Type 0} → Result A → Stream → (A → Waited B) → Waited B
and_then (ok a) stream next = next a
and_then (err e) stream next = (err e, stream)
and_then stuck stream next = (stuck, stream)

-- What comes after a wait.
unfoldable pub and_wait : {A B : Type 0} → Waited A → (A → Stream → Waited B) → Waited B
and_wait (ok a, stream) next = next a stream
and_wait (err e, stream) next = (err e, stream)
and_wait (stuck, stream) next = (stuck, stream)
