-- ===== src/Session/Delivery.antt =====
-- A response that arrives is returned, whatever arrives before it.
use hymer_connect_ha.Prelude.{
  Option, ℕ, ◌≤◌, ◌≡◌, ◌∙◌, refl, ap, arith, true, none, some, List, [], ◌∷◌, ◌++◌, map, All,
  length,
}
use hymer_connect_ha.Prelude.Int.{ℤ}
use hymer_connect_ha.Prelude.Result.{Result, ok}
use hymer_connect_ha.Frame.RoundTrip.{frame_of, decode-frame_of}
use hymer_connect_ha.Response.{
  BleResponse, succeeded, decode_ble_response_payload, decode_ble_response_frame,
}
use hymer_connect_ha.Message.{build_set_values_ble_pia_frame, app_pia_version}
use hymer_connect_ha.Message.Identity.{set_values_frame_id}
use hymer_connect_ha.Transport.{max_pia_frame}
use hymer_connect_ha.Transport.Delivery.{stream, feed_frames-stream}
use hymer_connect_ha.Session.{
  Event, plaintext, Waited, connected, and_wait, Connection, tls_established, write_plaintext,
  and_then, feed_chunks, first_answer, await_answer, judge_response, has_id,
}
use hymer_connect_ha.Session.Waiting.{
  first_answer_skip, first_answer_end, await_found, await_more, after_event_ok,
}
use hymer_connect_ha.Session.Answer.{judge_response_kept}
use hymer_connect_ha.Session.Requests.{send_frame_await_response, send_values}

module _ (crc32 : List ℕ → ℕ) where
  decode-framed :
      (payload : List ℕ)
      → length payload ≤ max_pia_frame
      → decode_ble_response_frame crc32 true (frame_of crc32 payload)
        ≡ decode_ble_response_payload payload
  unfolding decode_ble_response_frame
  decode-framed payload h = rw (decode-frame_of crc32 true payload (omega arith))

  -- One chunk with whole frames.
  fed_stream :
      (payloads : List (List ℕ))
      → All (λ p. length p ≤ max_pia_frame) payloads
      → feed_chunks [] [] (stream crc32 payloads ∷ [])
        ≡ (ok (map (frame_of crc32) payloads), [], map (frame_of crc32) payloads)
  unfolding feed_chunks
  fed_stream payloads h =
      let fed = feed_frames-stream crc32 payloads h in
      rw (
        ap (λ (f : Result (List (List ℕ)) × List ℕ). f.0) fed,
        ap (λ (f : Result (List (List ℕ)) × List ℕ). f.1) fed,
        feed_chunks,
      )

  module _ (id : ℤ) where
    -- How the loop of the request judges a frame.
    abbrev judge : List ℕ → Option (Result BleResponse)
    judge frame = judge_response id (decode_ble_response_frame crc32 true frame)

    -- The frame answers some other request, or is no response.
    abbrev pub PassedOver : List ℕ → Type 0
    PassedOver payload = judge_response id (decode_ble_response_payload payload) ≡ none

    answer_found :
        (before after : List (List ℕ)) (payload : List ℕ) (r : BleResponse)
        → All (λ p. length p ≤ max_pia_frame) (before ++ (payload ∷ after))
        → All PassedOver before
        → decode_ble_response_payload payload ≡ ok r
        → has_id id r.request_id ≡ true
        → first_answer judge (map (frame_of crc32) (before ++ (payload ∷ after)))
          ≡ some (ok r, map (frame_of crc32) after)
    answer_found [] after payload r short passed decoded same_id =
        first_answer_end judge (frame_of crc32 payload) (map (frame_of crc32) after) (ok r) (
          ap (judge_response id) (decode-framed payload short.0 ∙ decoded)
          ∙ judge_response_kept id r same_id)
    answer_found (p ∷ before) after payload r short passed decoded same_id =
        first_answer_skip judge (frame_of crc32 p)
          (map (frame_of crc32) (before ++ (payload ∷ after)))
          (ap (judge_response id) (decode-framed p short.0) ∙ passed.0)
        ∙ answer_found before after payload r short.1 passed.1 decoded same_id

    pub answer_returned :
        (c : Connection) (before after : List (List ℕ)) (payload : List ℕ) (r : BleResponse)
        (events : List Event)
        → tls_established c ≡ true
        → All (λ p. length p ≤ max_pia_frame) (before ++ (payload ∷ after))
        → All PassedOver before
        → decode_ble_response_payload payload ≡ ok r
        → has_id id r.request_id ≡ true
        → send_frame_await_response crc32 c id none (record {
          frame_buffer = [];
          pending_frames = [];
          events = plaintext (stream crc32 (before ++ (payload ∷ after)) ∷ []) ∷ events;
        })
          ≡ (
            ok r,
            record {
              frame_buffer = [];
              pending_frames = map (frame_of crc32) after;
              events = events;
            },
          )
    unfolding send_frame_await_response write_plaintext and_then first_answer
    answer_returned c before after payload r events up short passed decoded same_id =
        let payloads = before ++ (payload ∷ after) in
        let frames = map (frame_of crc32) payloads in
        rw up (
          await_more judge (plaintext (stream crc32 payloads ∷ [])) events [] [] refl
          ∙ after_event_ok judge (await_answer judge events) events [] []
              (stream crc32 payloads ∷ []) frames frames (fed_stream payloads short)
          ∙ await_found judge events [] frames (map (frame_of crc32) after) (ok r)
              (answer_found before after payload r short passed decoded same_id))

  -- Being connected implies an established TLS session.
  connected-tls : (c : Connection) → connected c ≡ true → tls_established c ≡ true
  unfolding connected tls_established
  connected-tls c up = ground arith

  -- For every CRC function: on a connected transport with nothing buffered, where the command can
  -- be built and its write raises nothing, and one notification brings frames of at most 64 KiB
  -- payload of which some are passed over and then one decodes to a response with the id of the
  -- request, the setValues command returns the success of that response, and the frames behind it
  -- stay pending.
  pub send_values_returned :
      (drawn now : ℤ) (c : Connection) (values : List (List ℕ)) (built : List ℕ × ℤ)
      (before after : List (List ℕ)) (payload : List ℕ) (r : BleResponse) (events : List Event)
      → connected c ≡ true
      → build_set_values_ble_pia_frame crc32 drawn now values none none app_pia_version ≡ ok built
      → All (λ p. length p ≤ max_pia_frame) (before ++ (payload ∷ after))
      → All (PassedOver drawn) before
      → decode_ble_response_payload payload ≡ ok r
      → has_id drawn r.request_id ≡ true
      → send_values crc32 drawn now c values none (record {
        frame_buffer = [];
        pending_frames = [];
        events = plaintext (stream crc32 (before ++ (payload ∷ after)) ∷ []) ∷ events;
      })
        ≡ (
          ok (succeeded r),
          record {
            frame_buffer = [];
            pending_frames = map (frame_of crc32) after;
            events = events;
          },
        )
  unfolding send_values and_then and_wait
  send_values_returned drawn now c values built before after payload r events up framed short passed
        decoded same_id =
      let drawn_id =
        set_values_frame_id crc32 drawn now values none none app_pia_version built framed in
      rw (up, framed)
        (rw drawn_id (
          ap
            (λ (w : Waited BleResponse).
              and_wait w (λ response stream'. (ok (succeeded response), stream')))
            (answer_returned drawn c before after payload r events (connected-tls c up) short passed
              decoded same_id)))
