-- ===== src/Transport.antt =====
-- `_feed_frames` of custom_components/hymer_connect_metadata/ble_transport.py: the plaintext stream cut
-- into BLE PIA frames. A call takes the frame buffer and a chunk, and gives the frames, or the
-- exception, and the buffer that it leaves.
pub mod Sync
pub mod Chunks
pub mod Split
pub mod Delivery
pub mod Shape
use mathlib.Core.Option
use hymer_connect_ha.Prelude.{
  ℕ, zero, suc, ◌+◌, ◌*◌, Bool, Option, none, some, List, [], ◌∷◌, ◌++◌, length, take, drop, ltb,
  ◌==◌, if◌then◌else◌,
}
use hymer_connect_ha.Prelude.Result.{Result, ok, err, stuck, transport_error}
use hymer_connect_ha.Frame.{ble_pia_magic, ble_pia_header_size, from_bytes, starts_with}

abbrev pub max_pia_frame : ℕ
max_pia_frame = 64 * 1024

-- `buf.find(magic)`
unfoldable pub find_magic : List ℕ → Option ℕ
find_magic [] = none
find_magic (b ∷ buf) =
    if starts_with (b ∷ buf) ble_pia_magic then some 0 else Option.map suc (find_magic buf)

-- With no magic in sight a trailing first byte of it is kept, and the rest dropped.
unfoldable pub keep_partial : List ℕ → List ℕ
keep_partial [] = []
keep_partial (b ∷ []) = if b == 0xa0 then b ∷ [] else []
keep_partial (b ∷ c ∷ buf) = keep_partial (c ∷ buf)

-- What one round of the loop does: return with a buffer, raise, or take a frame and go on.
pub data Round : Type 0 where
  wait : List ℕ → Round
  oversize : Round
  more : List ℕ → List ℕ → Round

-- A round on a buffer that starts with the magic bytes.
unfoldable pub frame_round : List ℕ → Round
frame_round buf =
    let size = from_bytes 0 (take 4 (drop 2 buf)) in
    let total = ble_pia_header_size + size in
    if ltb (length buf) ble_pia_header_size
    then wait buf
    else if ltb max_pia_frame size
    then oversize
    else if ltb (length buf) total
    then wait buf
    else more (take total buf) (drop total buf)

unfoldable pub feed_round : List ℕ → Round
feed_round buf = elim (find_magic buf) [
  | none ↦ wait (keep_partial buf)
  | some idx ↦ frame_round (drop idx buf)
]

unfoldable pub feed_loop : ℕ → List ℕ → List (List ℕ) → Result (List (List ℕ)) × List ℕ
feed_loop zero buf frames = (stuck, buf)
feed_loop (suc fuel) buf frames = elim (feed_round buf) [
  | wait buf' ↦ (ok frames, buf')
  | oversize ↦ (err transport_error, [])
  | more frame buf' ↦ feed_loop fuel buf' (frames ++ (frame ∷ []))
]

-- A round that goes on has taken ten bytes at least, so this fuel is enough.
unfoldable pub feed_frames : List ℕ → List ℕ → Result (List (List ℕ)) × List ℕ
feed_frames buffer chunk = feed_loop (suc (length (buffer ++ chunk))) (buffer ++ chunk) []
