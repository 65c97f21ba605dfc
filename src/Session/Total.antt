-- ===== src/Session/Total.antt =====
-- The wait for a response ends, whatever arrives.
use hymer_connect_ha.Prelude.{
  ℕ, ◌≡◌, ◌≢◌, ◌∙◌, refl, sym, ap, arith, Bool, true, Option, none, some, List, [], ◌∷◌, ◌++◌,
  Option-cases, inl, inr,
}
use hymer_connect_ha.Prelude.Int.{ℤ}
use hymer_connect_ha.Prelude.Result.{
  Error, value_error, overflow_error, transport_error, timeout_error, tls_error, Result, ok, err,
  stuck, ◌>>=◌,
}
use hymer_connect_ha.Frame.{
  BlePiaFrame, to_bytes_4, build_ble_pia_header, check_frame, decode_ble_pia_frame,
}
use hymer_connect_ha.Response.{BleResponse, decode_ble_response_frame, decode_ble_response_payload}
use hymer_connect_ha.Response.Total.{decode_ble_response_payload-ne-stuck}
use hymer_connect_ha.Transport.{feed_frames}
use hymer_connect_ha.Transport.Split.{feed_frames-ne-stuck}
use hymer_connect_ha.Session.{
  Event, plaintext, fails, Stream, Waited, Connection, write_plaintext, and_then, feed_chunks,
  first_answer, after_event, await_answer, judge_response,
}
use hymer_connect_ha.Session.Waiting.{await_found, await_more, await_timeout}
use hymer_connect_ha.Session.Requests.{send_frame_await_response}

module _ (crc32 : List ℕ → ℕ) where
  decode_ble_pia_frame-ne-stuck :
      (validate : Bool) (frame : List ℕ) → decode_ble_pia_frame crc32 validate frame ≢ stuck
  unfolding decode_ble_pia_frame check_frame build_ble_pia_header to_bytes_4
  decode_ble_pia_frame-ne-stuck validate frame e = ground arith

  decode_ble_response_frame-ne-stuck :
      (validate : Bool) (frame : List ℕ) → decode_ble_response_frame crc32 validate frame ≢ stuck
  unfolding decode_ble_response_frame
  decode_ble_response_frame-ne-stuck validate frame e =
      go (decode_ble_pia_frame crc32 validate frame) (decode_ble_pia_frame-ne-stuck validate frame)
        e
    where
      go :
          (r : Result BlePiaFrame)
          → r ≢ stuck
          → r >>= (λ f. decode_ble_response_payload f.payload) ≢ stuck
      go (ok f) h = decode_ble_response_payload-ne-stuck f.payload
      go (err x) h = λ e. cc
      go stuck h = absurd (h refl)

-- The chunks of an event are fed to the end, or one raises.
feed_chunks-ne-stuck :
    (buffer : List ℕ) (pending chunks : List (List ℕ))
    → (feed_chunks buffer pending chunks).0 ≢ stuck
unfolding feed_chunks
feed_chunks-ne-stuck buffer pending [] = λ e. cc
feed_chunks-ne-stuck buffer pending (chunk ∷ chunks) =
    go (feed_frames buffer chunk) (feed_frames-ne-stuck buffer chunk)
      (λ left frames. feed_chunks-ne-stuck left frames chunks)
  where
    go :
        (f : Result (List (List ℕ)) × List ℕ)
        → ((b : List ℕ) → f ≢ (stuck, b))
        → ((left : List ℕ) (frames : List (List ℕ)) → (feed_chunks left frames chunks).0 ≢ stuck)
        → (elim f.0 as (λ _. Result (List (List ℕ)) × List ℕ × List (List ℕ)) [
          | ok frames ↦ feed_chunks f.1 (pending ++ frames) chunks
          | err e ↦ (err e, f.1, pending)
          | stuck ↦ (stuck, f.1, pending)
        ]).0
          ≢ stuck
    go (ok frames, left) h later = later left (pending ++ frames)
    go (err x, left) h later = λ e. cc
    go (stuck, left) h later = absurd (h left refl)

module _ {A : Type 0} (judge : List ℕ → Option (Result A))
    (ends : (frame : List ℕ) → judge frame ≢ some stuck) where
  first_answer-ne-stuck :
      (frames rest : List (List ℕ)) → first_answer judge frames ≢ some (stuck, rest)
  unfolding first_answer
  first_answer-ne-stuck [] rest = λ e. cc
  first_answer-ne-stuck (frame ∷ frames) rest =
      go (judge frame) (ends frame) (first_answer-ne-stuck frames rest)
    where
      first_part :
          (r : Result A)
          → ◌≡◌ {A = Option (Result A × List (List ℕ))} (some (r, frames)) (some (stuck, rest))
          → r ≡ stuck
      first_part r e = cc

      go :
          (o : Option (Result A))
          → o ≢ some stuck
          → first_answer judge frames ≢ some (stuck, rest)
          → elim o [ none ↦ first_answer judge frames | some r ↦ some (r, frames) ]
            ≢ some (stuck, rest)
      go none h later = later
      go (some r) h later = λ e. h (ap some (first_part r e))

  after_event-ne-stuck :
      (await : List ℕ → List (List ℕ) → Waited A) (events : List Event) (buffer : List ℕ)
      (event : Event)
      → ((left : List ℕ) (frames : List (List ℕ)) → (await left frames).0 ≢ stuck)
      → (after_event judge await events buffer event).0 ≢ stuck
  unfolding after_event
  after_event-ne-stuck await events buffer (fails x) later = λ e. cc
  after_event-ne-stuck await events buffer (plaintext chunks) later =
      go (feed_chunks buffer [] chunks) (feed_chunks-ne-stuck buffer [] chunks)
    where
      go :
          (f : Result (List (List ℕ)) × List ℕ × List (List ℕ))
          → f.0 ≢ stuck
          → (elim f.0 as (λ _. Waited A) [
            | ok frames ↦ await f.1 frames
            | err x ↦ (err x, record { frame_buffer = f.1; pending_frames = f.2; events = events })
            | stuck ↦ (stuck, record { frame_buffer = f.1; pending_frames = f.2; events = events })
          ]).0
            ≢ stuck
      go (ok frames, left, pending) h = later left frames
      go (err x, left, pending) h = λ e. cc
      go (stuck, left, pending) h = absurd (h refl)

  -- A loop that finds its answer in the pending frames.
  found-ne-stuck :
      (events : List Event) (buffer : List ℕ) (pending rest : List (List ℕ)) (r : Result A)
      → first_answer judge pending ≡ some (r, rest)
      → (await_answer judge events buffer pending).0 ≢ stuck
  found-ne-stuck events buffer pending rest r found e =
      let same = await_found judge events buffer pending rest r found in
      let r_stuck : r ≡ stuck = sym (ap (λ (w : Waited A). w.0) same) ∙ e in
      first_answer-ne-stuck pending rest (found ∙ ap (λ (r : Result A). some (r, rest)) r_stuck)

  pub await_answer-ne-stuck :
      (events : List Event) (buffer : List ℕ) (pending : List (List ℕ))
      → (await_answer judge events buffer pending).0 ≢ stuck
  await_answer-ne-stuck [] buffer pending = elim (Option-cases (first_answer judge pending)) [
    | inl going_on ↦ λ e.
        let timeout = await_timeout judge buffer pending going_on in
        let raised = sym (ap (λ (w : Waited A). w.0) timeout) ∙ e in absurd (cc)
    | inr ((r, rest), found) ↦ found-ne-stuck [] buffer pending rest r found
  ]
  await_answer-ne-stuck (event ∷ events) buffer pending =
      elim (Option-cases (first_answer judge pending)) [
        | inl going_on ↦ λ e.
            after_event-ne-stuck (await_answer judge events) events buffer event
              (λ left frames. await_answer-ne-stuck events left frames)
              (sym (
                  ap (λ (w : Waited A). w.0)
                    (await_more judge event events buffer pending going_on))
                ∙ e)
        | inr ((r, rest), found) ↦ found-ne-stuck (event ∷ events) buffer pending rest r found
      ]

judge_response-ends :
    (id : ℤ) (decoded : Result BleResponse)
    → decoded ≢ stuck
    → judge_response id decoded ≢ some stuck
unfolding judge_response
judge_response-ends id (ok r) h = λ e. ground arith
judge_response-ends id (err value_error) h = λ e. cc
judge_response-ends id (err overflow_error) h = λ e. cc
judge_response-ends id (err transport_error) h = λ e. cc
judge_response-ends id (err timeout_error) h = λ e. cc
judge_response-ends id (err tls_error) h = λ e. cc
judge_response-ends id stuck h = absurd (h refl)

-- For every CRC function: on every connection, buffer, pending frames and list of events, the wait
-- for the response to a request returns or raises; with the fuel that they are given, its frame
-- reassembly and its decoders never run out.
pub send_frame_await_response-ne-stuck :
    (crc32 : List ℕ → ℕ) (c : Connection) (id : ℤ) (write_error : Option Error) (s : Stream)
    → (send_frame_await_response crc32 c id write_error s).0 ≢ stuck
unfolding send_frame_await_response
send_frame_await_response-ne-stuck crc32 c id write_error s =
    after_write _ (write_plaintext c write_error) (write_plaintext-ne-stuck c write_error) (
      await_answer-ne-stuck
        (λ frame. judge_response id (decode_ble_response_frame crc32 true frame))
        (λ frame.
          judge_response-ends id (decode_ble_response_frame crc32 true frame)
            (decode_ble_response_frame-ne-stuck crc32 true frame))
        s.events s.frame_buffer s.pending_frames)
  where
    write_plaintext-ne-stuck :
        (c : Connection) (write_error : Option Error) → write_plaintext c write_error ≢ stuck
    write_plaintext-ne-stuck c none = λ e. unfold write_plaintext in ground arith
    write_plaintext-ne-stuck c (some x) = λ e. unfold write_plaintext in ground arith

    after_write :
        (w : Waited BleResponse) (r : Result Bool)
        → r ≢ stuck
        → w.0 ≢ stuck
        → (and_then r s (λ _. w)).0 ≢ stuck
    after_write w (ok b) h hw = unfold and_then in hw
    after_write w (err x) h hw = λ e. unfold and_then in cc
    after_write w stuck h hw = absurd (h refl)
