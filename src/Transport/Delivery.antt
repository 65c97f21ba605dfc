-- ===== src/Transport/Delivery.antt =====
-- What the reassembly delivers: the frames that were sent, and nothing that is no frame.
use mathlib.Core.List.{append_assoc, append-nil}
use hymer_connect_ha.Prelude.{
  drop-append, ap, take-append, length-append, drop, ◌+◌, map, take, ◌^◌, ◌≤◌, All, ◌<◌, ℕ, zero,
  suc, List, [], ◌∷◌, ◌++◌, ◌≡◌, refl, sym, ◌∙◌, length, arith,
}
use hymer_connect_ha.Prelude.Result.{ok}
use hymer_connect_ha.Frame.{from_bytes}
use hymer_connect_ha.Frame.RoundTrip.{frame_of, from_bytes-be, length-frame_of}
use hymer_connect_ha.Transport.{
  max_pia_frame, more, frame_round, feed_round, feed_loop, feed_frames, find_magic, keep_partial,
}
use hymer_connect_ha.Transport.Sync.{sync, feed_round-eq-sync}
use hymer_connect_ha.Transport.Split.{loop_more, loop_wait}

module _ (crc32 : List ℕ → ℕ) where
  sync-frame_of :
      (payload rest : List ℕ)
      → sync (frame_of crc32 payload ++ rest) ≡ frame_of crc32 payload ++ rest
  unfolding sync frame_of
  sync-frame_of payload rest = refl

  size-frame_of :
      (payload rest : List ℕ)
      → length payload < 2 ^ 32
      → from_bytes 0 (take 4 (drop 2 (frame_of crc32 payload ++ rest))) ≡ length payload
  unfolding frame_of
  size-frame_of payload rest h = from_bytes-be (length payload) h

  -- A whole frame in front is taken off, and what follows is left.
  feed_round-frame_of :
      (payload rest : List ℕ)
      → length payload ≤ max_pia_frame
      → feed_round (frame_of crc32 payload ++ rest) ≡ more (frame_of crc32 payload) rest
  feed_round-frame_of payload rest h =
      let f = frame_of crc32 payload in
      let l : length f ≡ 10 + length payload = length-frame_of crc32 payload in
      feed_round-eq-sync (f ++ rest)
      ∙ rw (sync-frame_of payload rest) (
          unfold frame_round in
          rw (size-frame_of payload rest (omega arith)) (
            rw (← l) (
              rw (take-append f rest, drop-append f rest)
                (ground (arith, l, length-append f rest)))))

  -- The bytes of frames sent one after the other.
  unfoldable pub stream : List (List ℕ) → List ℕ
  stream [] = []
  stream (p ∷ payloads) = frame_of crc32 p ++ stream payloads

  feed_loop-stream :
      (payloads : List (List ℕ)) (n : ℕ) (done : List (List ℕ))
      → All (λ p. length p ≤ max_pia_frame) payloads
      → length (stream payloads) < n
      → feed_loop n (stream payloads) done ≡ (ok (done ++ map (frame_of crc32) payloads), [])
  unfolding stream
  feed_loop-stream payloads zero done h k = absurd (omega arith)
  feed_loop-stream [] (suc n) done h k =
      loop_wait n [] done [] (unfold feed_round find_magic keep_partial in refl)
      ∙ ap (λ (t : List (List ℕ)). (ok t, [])) (sym (append-nil done))
  feed_loop-stream (p ∷ payloads) (suc n) done h k =
      loop_more n (frame_of crc32 p ++ stream payloads) done (frame_of crc32 p) (stream payloads)
        (feed_round-frame_of p (stream payloads) h.0)
      ∙ feed_loop-stream payloads n (done ++ (frame_of crc32 p ∷ [])) h.1 (
          omega
            (arith, length-append (frame_of crc32 p) (stream payloads), length-frame_of crc32 p))
      ∙ ap (λ (t : List (List ℕ)). (ok t, []))
          (append_assoc done (frame_of crc32 p ∷ []) (map (frame_of crc32) payloads))

  -- For every CRC function: the frames of payloads of at most 64 KiB each, sent one after the other
  -- into an empty buffer, are all delivered by one call, in order and unchanged, and the buffer is
  -- empty again.
  pub feed_frames-stream :
      (payloads : List (List ℕ))
      → All (λ p. length p ≤ max_pia_frame) payloads
      → feed_frames [] (stream payloads) ≡ (ok (map (frame_of crc32) payloads), [])
  unfolding feed_frames
  feed_frames-stream payloads h =
      feed_loop-stream payloads (suc (length (stream payloads))) [] h (omega arith)
