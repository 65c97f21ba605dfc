-- ===== src/Frame.antt =====
-- The BLE PIA transport frame of ble_pia.py: two magic bytes, the payload's length and a CRC-32, both
-- big-endian in 4 bytes, and the payload. `zlib.crc32` is a parameter.
pub mod RoundTrip
pub mod Accept
use hymer_connect_ha.Prelude.{
  ℕ, ◌+◌, ◌*◌, ◌/◌, ◌%◌, ◌^◌, Bool, true, false, not, ◌&&◌, List, [], ◌∷◌, ◌++◌, length, take, drop,
  ltb, ◌==◌, if◌then◌else◌,
}
use hymer_connect_ha.Prelude.Int.{ℤ, pos, negsuc}
use hymer_connect_ha.Prelude.Result.{Result, ok, err, value_error, overflow_error, ◌>>=◌}

abbrev pub ble_pia_magic : List ℕ
ble_pia_magic = 0xa0 ∷ 0xcb ∷ []

abbrev pub ble_pia_header_size : ℕ
ble_pia_header_size = 10

pub record BlePiaFrame : Type 0 where
  pub payload_length : ℕ
  pub crc32 : ℕ
  pub payload : List ℕ
  pub crc32_valid : Bool

-- `n.to_bytes(4, byteorder="big", signed=False)`
unfoldable pub to_bytes_4 : ℕ → Result (List ℕ)
to_bytes_4 n =
    if ltb n (2 ^ 32)
    then ok ((n / 2 ^ 24) ∷ (n / 2 ^ 16 % 256) ∷ (n / 2 ^ 8 % 256) ∷ (n % 256) ∷ [])
    else err overflow_error

-- `int.from_bytes(bytes, byteorder="big", signed=False)`, onto what was read before.
unfoldable pub from_bytes : ℕ → List ℕ → ℕ
from_bytes acc [] = acc
from_bytes acc (b ∷ bytes) = from_bytes (acc * 256 + b) bytes

-- `buffer.startswith(prefix)`
unfoldable pub starts_with : List ℕ → List ℕ → Bool
starts_with buffer [] = true
starts_with [] (p ∷ prefix) = false
starts_with (b ∷ buffer) (p ∷ prefix) = b == p && starts_with buffer prefix

unfoldable pub build_ble_pia_header : ℤ → ℕ → Result (List ℕ)
build_ble_pia_header (negsuc n) crc32_value = err value_error
build_ble_pia_header (pos payload_length) crc32_value = do
  size ← to_bytes_4 payload_length
  crc ← to_bytes_4 (crc32_value % 2 ^ 32)
  ok (ble_pia_magic ++ (size ++ crc))

module _ (crc32 : List ℕ → ℕ) where
  unfoldable pub encode_ble_pia_frame : List ℕ → Result (List ℕ)
  encode_ble_pia_frame payload = do
    provisional_header ← build_ble_pia_header (pos (length payload)) 0
    let crc32_value = crc32 (provisional_header ++ payload) % 2 ^ 32
    header ← build_ble_pia_header (pos (length payload)) crc32_value
    ok (header ++ payload)

  -- The last part of `decode_ble_pia_frame`: what the header says against what the payload is.
  unfoldable pub check_frame : Bool → ℕ → ℕ → List ℕ → Result BlePiaFrame
  check_frame validate_crc payload_length crc32_value payload =
      if not (length payload == payload_length) then err value_error else do
        header ← build_ble_pia_header (pos payload_length) 0
        let crc32_valid = crc32 (header ++ payload) % 2 ^ 32 == crc32_value
        if validate_crc && not crc32_valid
            then err value_error
            else ok (record {
              payload_length = payload_length;
              crc32 = crc32_value;
              payload = payload;
              crc32_valid = crc32_valid;
            })

  unfoldable pub decode_ble_pia_frame : Bool → List ℕ → Result BlePiaFrame
  decode_ble_pia_frame validate_crc frame =
      if ltb (length frame) ble_pia_header_size
      then err value_error
      else if not (starts_with frame ble_pia_magic)
      then err value_error
      else check_frame validate_crc (from_bytes 0 (take 4 (drop 2 frame)))
          (from_bytes 0 (take 4 (drop 6 frame))) (drop ble_pia_header_size frame)
