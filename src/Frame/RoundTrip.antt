-- ===== src/Frame/RoundTrip.antt =====
-- Frames that `encode_ble_pia_frame` writes, and frames that `decode_ble_pia_frame` accepts.
use hymer_connect_ha.Prelude.{
  inr, inl, Bool-cases, ◌+◌, ℕ, ◌/◌, ◌%◌, ◌^◌, ◌≤◌, ◌<◌, ◌≡◌, arith, Bool, true, false, List, [],
  ◌∷◌, ◌++◌, length, ltb, ==_refl,
}
use hymer_connect_ha.Prelude.Int.{pos}
use hymer_connect_ha.Prelude.Result.{ok, err, overflow_error}
use hymer_connect_ha.Frame.{
  BlePiaFrame, to_bytes_4, from_bytes, starts_with, build_ble_pia_header, encode_ble_pia_frame,
  check_frame, decode_ble_pia_frame,
}

-- The ten bytes of a header.
abbrev pub header_bytes : ℕ → ℕ → List ℕ
header_bytes size crc =
    0xa0
    ∷ 0xcb
    ∷ (size / 2 ^ 24)
    ∷ (size / 2 ^ 16 % 256)
    ∷ (size / 2 ^ 8 % 256)
    ∷ (size % 256)
    ∷ (crc / 2 ^ 24)
    ∷ (crc / 2 ^ 16 % 256)
    ∷ (crc / 2 ^ 8 % 256)
    ∷ (crc % 256)
    ∷ []

pub header-eq :
    (size crc : ℕ)
    → size < 2 ^ 32
    → build_ble_pia_header (pos size) crc ≡ ok (header_bytes size (crc % 2 ^ 32))
unfolding build_ble_pia_header to_bytes_4
header-eq size crc h = ground arith

header_overflow :
    (size crc : ℕ) → 2 ^ 32 ≤ size → build_ble_pia_header (pos size) crc ≡ err overflow_error
unfolding build_ble_pia_header to_bytes_4
header_overflow size crc h = ground arith

pub from_bytes-be :
    (n : ℕ)
    → n < 2 ^ 32
    → from_bytes 0 ((n / 2 ^ 24) ∷ (n / 2 ^ 16 % 256) ∷ (n / 2 ^ 8 % 256) ∷ (n % 256) ∷ []) ≡ n
unfolding from_bytes
from_bytes-be n h = omega arith

mod_twice : (n : ℕ) → n % 2 ^ 32 % 2 ^ 32 ≡ n % 2 ^ 32
mod_twice n = omega arith

module _ (crc32 : List ℕ → ℕ) where
  -- The CRC that a payload's frame carries: of its header with a zero CRC, and of itself.
  unfoldable pub frame_crc : List ℕ → ℕ
  frame_crc payload = crc32 (header_bytes (length payload) 0 ++ payload) % 2 ^ 32

  unfoldable pub frame_of : List ℕ → List ℕ
  frame_of payload = header_bytes (length payload) (frame_crc payload) ++ payload

  frame_crc-lt : (payload : List ℕ) → frame_crc payload < 2 ^ 32
  unfolding frame_crc
  frame_crc-lt payload = omega arith

  long_enough : (payload : List ℕ) → ltb (length (frame_of payload)) 10 ≡ false
  unfolding frame_of
  long_enough payload = ground arith

  pub encode-eq-frame_of :
      (payload : List ℕ)
      → length payload < 2 ^ 32
      → encode_ble_pia_frame crc32 payload ≡ ok (frame_of payload)
  unfolding encode_ble_pia_frame frame_of frame_crc
  encode-eq-frame_of payload h =
      let crc = crc32 (header_bytes (length payload) 0 ++ payload) % 2 ^ 32 in
      rw (header-eq (length payload) 0 h, header-eq (length payload) crc h)
        (rw (mod_twice (crc32 (header_bytes (length payload) 0 ++ payload))))

  check_frame-frame_of :
      (validate : Bool) (payload : List ℕ)
      → length payload < 2 ^ 32
      → check_frame crc32 validate (length payload) (frame_crc payload) payload
        ≡ ok (record {
          payload_length = length payload;
          crc32 = frame_crc payload;
          payload = payload;
          crc32_valid = true;
        })
  unfolding check_frame frame_crc
  check_frame-frame_of validate payload h =
      rw (header-eq (length payload) 0 h, ==_refl (length payload)) (rw ==_refl (ground arith))

  pub decode-frame_of :
      (validate : Bool) (payload : List ℕ)
      → length payload < 2 ^ 32
      → decode_ble_pia_frame crc32 validate (frame_of payload)
        ≡ ok (record {
          payload_length = length payload;
          crc32 = frame_crc payload;
          payload = payload;
          crc32_valid = true;
        })
  unfolding decode_ble_pia_frame frame_of starts_with
  decode-frame_of validate payload h =
      rw
        (
          from_bytes-be (length payload) h,
          from_bytes-be (frame_crc payload) (frame_crc-lt payload),
          long_enough payload,
        )
        (check_frame-frame_of validate payload h)

  -- What an accepted frame's checks say of it.
  pub check_frame_inv :
      (size crc : ℕ) (payload : List ℕ) (f : BlePiaFrame)
      → size < 2 ^ 32
      → check_frame crc32 true size crc payload ≡ ok f
      → (f.payload ≡ payload)
        × (f.crc32_valid ≡ true)
        × (size ≡ length payload)
        × (crc ≡ frame_crc payload)
  unfolding check_frame frame_crc
  check_frame_inv size crc payload f h e = ground (arith, rw (header-eq size 0 h) at e)

  pub length-frame_of : (payload : List ℕ) → length (frame_of payload) ≡ 10 + length payload
  unfolding frame_of
  length-frame_of payload = omega arith

  -- Encoding succeeds exactly where the length fits 32 bits, and raises OverflowError elsewhere.
  pub encode_ble_pia_frame_overflow :
      (payload : List ℕ)
      → 2 ^ 32 ≤ length payload
      → encode_ble_pia_frame crc32 payload ≡ err overflow_error
  unfolding encode_ble_pia_frame
  encode_ble_pia_frame_overflow payload h = rw (header_overflow (length payload) 0 h)

  fits_or_overflows :
      (payload frame : List ℕ)
      → encode_ble_pia_frame crc32 payload ≡ ok frame
      → (length payload < 2 ^ 32) × (frame ≡ frame_of payload)
  fits_or_overflows payload frame e = elim (Bool-cases (ltb (length payload) (2 ^ 32))) [
    | inl small ↦
        let h : length payload < 2 ^ 32 = grind arith in
        (h, grind (arith, encode-eq-frame_of payload h, e))
    | inr large ↦ let o = encode_ble_pia_frame_overflow payload (grind arith) in absurd (cc)
  ]

  -- For every CRC function: a frame that the encoder returned for a payload decodes, with and
  -- without CRC validation, to that payload, its length, the CRC of the frame with a zero CRC
  -- field, and a CRC that is found valid.
  pub decode-encode_ble_pia_frame :
      (validate : Bool) (payload frame : List ℕ)
      → encode_ble_pia_frame crc32 payload ≡ ok frame
      → decode_ble_pia_frame crc32 validate frame
        ≡ ok (record {
          payload_length = length payload;
          crc32 = frame_crc payload;
          payload = payload;
          crc32_valid = true;
        })
  decode-encode_ble_pia_frame validate payload frame e =
      let (h, eq) = fits_or_overflows payload frame e in
      rw (eq) (decode-frame_of validate payload h)
