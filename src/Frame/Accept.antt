-- ===== src/Frame/Accept.antt =====
-- The frames that `decode_ble_pia_frame` accepts are those that `encode_ble_pia_frame` writes.
use hymer_connect_ha.Prelude.{
  ℕ, ◌/◌, ◌%◌, ◌^◌, ◌<◌, ◌≡◌, ◌∙◌, arith, true, List, [], ◌∷◌, ◌++◌, length, All, IsByte,
}
use hymer_connect_ha.Prelude.Result.{ok}
use hymer_connect_ha.Frame.{
  BlePiaFrame, from_bytes, starts_with, check_frame, encode_ble_pia_frame, decode_ble_pia_frame,
}
use hymer_connect_ha.Frame.RoundTrip.{header_bytes, frame_of, encode-eq-frame_of, check_frame_inv}

-- Four bytes are the big-endian digits of the number that they are read as.
digits-from_bytes :
    (a b c d : ℕ)
    → a < 256
    → b < 256
    → c < 256
    → d < 256
    → (from_bytes 0 (a ∷ b ∷ c ∷ d ∷ []) < 2 ^ 32)
      × (from_bytes 0 (a ∷ b ∷ c ∷ d ∷ []) / 2 ^ 24 ≡ a)
      × (from_bytes 0 (a ∷ b ∷ c ∷ d ∷ []) / 2 ^ 16 % 256 ≡ b)
      × (from_bytes 0 (a ∷ b ∷ c ∷ d ∷ []) / 2 ^ 8 % 256 ≡ c)
      × (from_bytes 0 (a ∷ b ∷ c ∷ d ∷ []) % 256 ≡ d)
unfolding from_bytes
digits-from_bytes a b c d ha hb hc hd = omega arith

-- The header bytes are those of the numbers that they are read as.
header_bytes-from_bytes :
    (a b c d w x y z : ℕ) (rest : List ℕ)
    → All IsByte (a ∷ b ∷ c ∷ d ∷ [])
    → All IsByte (w ∷ x ∷ y ∷ z ∷ [])
    → header_bytes (from_bytes 0 (a ∷ b ∷ c ∷ d ∷ [])) (from_bytes 0 (w ∷ x ∷ y ∷ z ∷ [])) ++ rest
      ≡ 0xa0 ∷ 0xcb ∷ a ∷ b ∷ c ∷ d ∷ w ∷ x ∷ y ∷ z ∷ rest
header_bytes-from_bytes a b c d w x y z rest h k =
    let (_, e1, e2, e3, e4) = digits-from_bytes a b c d h.0 h.1.0 h.1.1.0 h.1.1.1.0 in
    let (_, k1, k2, k3, k4) = digits-from_bytes w x y z k.0 k.1.0 k.1.1.0 k.1.1.1.0 in
    rw (e1, e2, e3, e4, k1, k2, k3, k4)

module _ (crc32 : List ℕ → ℕ) where
  checked :
      (size crc : ℕ) (payload : List ℕ) (f : BlePiaFrame)
      → size < 2 ^ 32
      → check_frame crc32 true size crc payload ≡ ok f
      → (encode_ble_pia_frame crc32 f.payload ≡ ok (header_bytes size crc ++ payload))
        × (f.crc32_valid ≡ true)
        × (length f.payload < 2 ^ 32)
  unfolding frame_of
  checked size crc payload f h e =
      let (p, valid, s, c) = check_frame_inv crc32 size crc payload f h e in
      rw p (encode-eq-frame_of crc32 payload (omega arith) ∙ rw (s, c), valid, omega arith)

  -- A frame that decodes has the magic bytes, and its parts pass the checks.
  decoded_parts :
      (m n a b c d w x y z : ℕ) (payload : List ℕ) (f : BlePiaFrame)
      → decode_ble_pia_frame crc32 true (m ∷ n ∷ a ∷ b ∷ c ∷ d ∷ w ∷ x ∷ y ∷ z ∷ payload) ≡ ok f
      → (m ≡ 0xa0)
        × (n ≡ 0xcb)
        × (check_frame crc32 true
              (from_bytes 0 (a ∷ b ∷ c ∷ d ∷ []))
              (from_bytes 0 (w ∷ x ∷ y ∷ z ∷ []))
              payload
            ≡ ok f)
  unfolding decode_ble_pia_frame starts_with
  decoded_parts m n a b c d w x y z payload f e = ground arith

  -- For every CRC function: where a list of bytes decodes with CRC validation, it is what the
  -- encoder returns for the payload that was decoded, the CRC is reported valid, and the payload is
  -- shorter than 2 ^ 32. The decoder accepts nothing but encoded frames.
  pub decode-canonical :
      (frame : List ℕ) (f : BlePiaFrame)
      → All IsByte frame
      → decode_ble_pia_frame crc32 true frame ≡ ok f
      → (encode_ble_pia_frame crc32 f.payload ≡ ok frame)
        × (f.crc32_valid ≡ true)
        × (length f.payload < 2 ^ 32)
  decode-canonical (m ∷ n ∷ a ∷ b ∷ c ∷ d ∷ w ∷ x ∷ y ∷ z ∷ payload) f h e =
      let (em, en, e') = decoded_parts m n a b c d w x y z payload f e in
      let fits =
        (digits-from_bytes a b c d (omega arith) (omega arith) (omega arith) (omega arith)).0 in
      rw (em, en)
        (rw (header_bytes-from_bytes a b c d w x y z payload (omega arith) (omega arith)) at
          (checked _ _ payload f fits e'))
  decode-canonical _ f h e = unfold decode_ble_pia_frame in cc
