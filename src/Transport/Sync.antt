-- ===== src/Transport/Sync.antt =====
-- The search for the magic bytes, as one recursion that does not depend on where chunks end.

use hymer_connect_ha.Frame.{starts_with}
use hymer_connect_ha.Prelude.{
  length, List, [], ◌∷◌, none, some, arith, ◌≤◌, ◌&&◌, drop, ◌==◌, arith, if◌then◌else◌, some, none,
  ◌++◌, ◌∷◌, ℕ, List, ◌≡◌, refl,
}
use hymer_connect_ha.Transport.{find_magic, keep_partial, wait, frame_round, feed_round}

-- The buffer from the first magic bytes on, or from a last byte that may begin them.
unfoldable pub sync : List ℕ → List ℕ
sync [] = []
sync (b ∷ []) = if b == 0xa0 then b ∷ [] else []
sync (b ∷ c ∷ buf) = if b == 0xa0 && c == 0xcb then b ∷ c ∷ buf else sync (c ∷ buf)

-- What the search leaves is not searched again.
found_or_kept : List ℕ → List ℕ
found_or_kept buf = elim (find_magic buf) [ none ↦ keep_partial buf | some idx ↦ drop idx buf ]

found_or_kept-eq-sync : (buf : List ℕ) → found_or_kept buf ≡ sync buf
unfolding found_or_kept find_magic keep_partial sync starts_with
found_or_kept-eq-sync [] = refl
found_or_kept-eq-sync (b ∷ []) = ground arith
found_or_kept-eq-sync (b ∷ c ∷ buf) = ground (arith, found_or_kept-eq-sync (c ∷ buf))

length-keep_partial : (buf : List ℕ) → length (keep_partial buf) ≤ 1
unfolding keep_partial
length-keep_partial [] = omega arith
length-keep_partial (b ∷ []) = ground arith
length-keep_partial (b ∷ c ∷ buf) = length-keep_partial (c ∷ buf)

short_waits : (buf : List ℕ) → length buf ≤ 1 → frame_round buf ≡ wait buf
unfolding frame_round
short_waits buf h = ground arith

-- A round is the search, and then a round at the magic bytes.
pub feed_round-eq-sync : (buf : List ℕ) → feed_round buf ≡ frame_round (sync buf)
unfolding feed_round found_or_kept
feed_round-eq-sync buf =
    rw (← found_or_kept-eq-sync buf)
      (ground (arith, short_waits (keep_partial buf) (length-keep_partial buf)))

-- Bytes that come later do not change where the search stands.
pub sync-append : (buf chunk : List ℕ) → sync (buf ++ chunk) ≡ sync (sync buf ++ chunk)
unfolding sync
sync-append [] chunk = refl
sync-append (b ∷ []) [] = ground arith
sync-append (b ∷ []) (d ∷ chunk) = ground arith
sync-append (b ∷ c ∷ buf) chunk = ground (arith, sync-append (c ∷ buf) chunk)
