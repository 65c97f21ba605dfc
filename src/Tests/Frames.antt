-- ===== src/Tests/Frames.antt =====
-- The frame layer at work on two small frames. The CRC-32 is a sum of bytes here.
use hymer_connect_ha.Prelude.{
  IsByte, ◌^◌, ◌<◌, All, length, false, ℕ, ◌+◌, ◌≡◌, refl, arith, true, List, [], ◌∷◌, ◌++◌, map,
}
use hymer_connect_ha.Prelude.Result.{ok, err, transport_error}
use hymer_connect_ha.Frame.{
  check_frame, build_ble_pia_header, to_bytes_4, from_bytes, starts_with, BlePiaFrame,
  encode_ble_pia_frame, decode_ble_pia_frame,
}
use hymer_connect_ha.Frame.RoundTrip
use hymer_connect_ha.Frame.RoundTrip.{frame_of, frame_crc}
use hymer_connect_ha.Frame.Accept
use hymer_connect_ha.Transport.{
  find_magic, keep_partial, frame_round, feed_round, feed_loop, feed_frames, max_pia_frame,
}
use hymer_connect_ha.Transport.Split
use hymer_connect_ha.Transport.Split.{prepend}
use hymer_connect_ha.Transport.Delivery
use hymer_connect_ha.Transport.Delivery.{stream}
use hymer_connect_ha.Transport.Shape

abbrev checksum : List ℕ → ℕ
checksum [] = 0
checksum (b ∷ bytes) = b + checksum bytes

abbrev small_payload : List ℕ
small_payload = 7 ∷ 9 ∷ []

-- Its frame, in two parts, and noise before it.
abbrev head_part : List ℕ
head_part = 0xa0 ∷ 0xcb ∷ 0 ∷ 0 ∷ 0 ∷ 2 ∷ 0 ∷ []

abbrev tail_part : List ℕ
tail_part = 0 ∷ 1 ∷ 125 ∷ 7 ∷ 9 ∷ []

abbrev small_frame : List ℕ
small_frame = 0xa0 ∷ 0xcb ∷ 0 ∷ 0 ∷ 0 ∷ 2 ∷ 0 ∷ 0 ∷ 1 ∷ 125 ∷ 7 ∷ 9 ∷ []

abbrev noisy_chunk : List ℕ
noisy_chunk = 1 ∷ 0xa0 ∷ 2 ∷ small_frame

abbrev oversize_chunk : List ℕ
oversize_chunk = 0xa0 ∷ 0xcb ∷ 1 ∷ 0 ∷ 0 ∷ 0 ∷ 0 ∷ 0 ∷ 0 ∷ 0 ∷ []

encoded : encode_ble_pia_frame checksum small_payload ≡ ok small_frame
unfolding encode_ble_pia_frame build_ble_pia_header to_bytes_4
encoded = refl

fed_noise : feed_frames [] (noisy_chunk ++ head_part) ≡ (ok (small_frame ∷ []), head_part)
unfolding find_magic keep_partial frame_round feed_round feed_loop feed_frames from_bytes
    starts_with
fed_noise = refl

fed_oversize : feed_frames [] oversize_chunk ≡ (err transport_error, [])
unfolding find_magic keep_partial frame_round feed_round feed_loop feed_frames from_bytes
    starts_with
fed_oversize = refl

decoded :
    decode_ble_pia_frame checksum true small_frame
    ≡ ok (record { payload_length = 2; crc32 = 381; payload = small_payload; crc32_valid = true })
unfolding decode_ble_pia_frame check_frame build_ble_pia_header to_bytes_4 from_bytes starts_with
decoded = refl

feed_frames-append_example :
    feed_frames [] ((noisy_chunk ++ head_part) ++ tail_part)
    ≡ prepend (small_frame ∷ []) (feed_frames head_part tail_part)
feed_frames-append_example =
    Split.feed_frames-append [] (noisy_chunk ++ head_part) tail_part (small_frame ∷ []) head_part
      fed_noise

feed_frames-stream_example :
    feed_frames [] (stream checksum (small_payload ∷ [] ∷ []))
    ≡ (ok (map (frame_of checksum) (small_payload ∷ [] ∷ [])), [])
feed_frames-stream_example =
    Delivery.feed_frames-stream checksum (small_payload ∷ [] ∷ []) (omega arith, (omega arith, tt))

feed_frames_shape_example :
    All Shape.IsFrame (small_frame ∷ []) × (length head_part < 10 + max_pia_frame)
feed_frames_shape_example =
    Shape.feed_frames_shape [] (noisy_chunk ++ head_part) (small_frame ∷ []) head_part fed_noise

abbrev small_decoded : BlePiaFrame
small_decoded = record {
  payload_length = 2;
  crc32 = 381;
  payload = small_payload;
  crc32_valid = true;
}

decode-canonical_example :
    (encode_ble_pia_frame checksum small_payload ≡ ok small_frame)
    × (true ≡ true)
    × (length small_payload < 2 ^ 32)
decode-canonical_example =
    Accept.decode-canonical checksum small_frame small_decoded all_bytes decoded
  where
    all_bytes : All IsByte small_frame
    all_bytes = (
      omega arith,
      (
        omega arith,
        (
          omega arith,
          (
            omega arith,
            (
              omega arith,
              (
                omega arith,
                (
                  omega arith,
                  (omega arith, (omega arith, (omega arith, (omega arith, (omega arith, tt))))),
                ),
              ),
            ),
          ),
        ),
      ),
    )

decode-encode_ble_pia_frame_example :
    decode_ble_pia_frame checksum false small_frame
    ≡ ok (record {
      payload_length = 2;
      crc32 = frame_crc checksum small_payload;
      payload = small_payload;
      crc32_valid = true;
    })
decode-encode_ble_pia_frame_example =
    RoundTrip.decode-encode_ble_pia_frame checksum false small_payload small_frame encoded
