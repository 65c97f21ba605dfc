-- ===== src/Transport/Chunks.antt =====
-- The rounds of the frame reassembly on a buffer and on the buffer with more bytes behind it.
use hymer_connect_ha.Frame.{from_bytes}
use hymer_connect_ha.Prelude.{
  length-drop, ap, ◌≤◌, ◌+◌, length-append, ℕ, zero, suc, List, [], ◌∷◌, ◌++◌, ◌≡◌, refl, sym, ◌∙◌,
  length, take, drop, arith,
}
use hymer_connect_ha.Transport.{wait, oversize, more, frame_round, feed_round}
use hymer_connect_ha.Transport.Sync.{sync, sync-append, feed_round-eq-sync}

module _ {ℓ} {A : Type ℓ} where
  pub take-append_le : (n : ℕ) (xs ys : List A) → n ≤ length xs → take n (xs ++ ys) ≡ take n xs
  take-append_le zero xs ys h = refl
  take-append_le (suc n) [] ys h = absurd (omega arith)
  take-append_le (suc n) (x ∷ xs) ys h = ap (λ t. x ∷ t) (take-append_le n xs ys (omega arith))

  pub drop-append_le :
      (n : ℕ) (xs ys : List A) → n ≤ length xs → drop n (xs ++ ys) ≡ drop n xs ++ ys
  drop-append_le zero xs ys h = refl
  drop-append_le (suc n) [] ys h = absurd (omega arith)
  drop-append_le (suc n) (x ∷ xs) ys h = drop-append_le n xs ys (omega arith)

-- The length that a header declares is not touched by what follows the header.
size-append :
    (s d : List ℕ)
    → 10 ≤ length s
    → from_bytes 0 (take 4 (drop 2 (s ++ d))) ≡ from_bytes 0 (take 4 (drop 2 s))
size-append s d h =
    rw (drop-append_le 2 s d (omega arith))
      (rw (take-append_le 4 (drop 2 s) d (omega (arith, length-drop 2 s))))

pub wait_same : (s b : List ℕ) → frame_round s ≡ wait b → b ≡ s
unfolding frame_round
wait_same s b e = ground arith

oversize-append : (s d : List ℕ) → frame_round s ≡ oversize → frame_round (s ++ d) ≡ oversize
unfolding frame_round
oversize-append s d e = ground (arith, size-append s d, length-append s d)

pub more_parts :
    (s f r : List ℕ)
    → frame_round s ≡ more f r
    → (10 ≤ length s)
      × (10 + from_bytes 0 (take 4 (drop 2 s)) ≤ length s)
      × (from_bytes 0 (take 4 (drop 2 s)) ≤ 65536)
      × (f ≡ take (10 + from_bytes 0 (take 4 (drop 2 s))) s)
      × (r ≡ drop (10 + from_bytes 0 (take 4 (drop 2 s))) s)
unfolding frame_round
more_parts s f r e = ground arith

more-append : (s d f r : List ℕ) → frame_round s ≡ more f r → frame_round (s ++ d) ≡ more f (r ++ d)
more-append s d f r e =
    let size = from_bytes 0 (take 4 (drop 2 s)) in
    let (long, fits, small, ef, er) = more_parts s f r e in
    unfold frame_round in
    ground (
      arith,
      size-append s d,
      length-append s d,
      take-append_le (10 + size) s d,
      drop-append_le (10 + size) s d,
    )

oversize_long : (s : List ℕ) → frame_round s ≡ oversize → 10 ≤ length s
unfolding frame_round
oversize_long s e = ground arith

-- Once the magic bytes are found the search stands still.
sync_stays : (buf d : List ℕ) → 2 ≤ length (sync buf) → sync (sync buf ++ d) ≡ sync buf ++ d
unfolding sync
sync_stays [] d h = absurd (omega arith)
sync_stays (b ∷ []) d h = absurd (ground arith)
sync_stays (b ∷ c ∷ buf) d h = ground (arith, sync_stays (c ∷ buf) d)

pub length-sync : (buf : List ℕ) → length (sync buf) ≤ length buf
unfolding sync
length-sync [] = omega arith
length-sync (b ∷ []) = ground arith
length-sync (b ∷ c ∷ buf) = ground (arith, length-sync (c ∷ buf))

-- How a round goes on when more bytes come.
pub wait_then :
    (buf b d : List ℕ) → feed_round buf ≡ wait b → feed_round (buf ++ d) ≡ feed_round (b ++ d)
wait_then buf b d e =
    let same : b ≡ sync buf = wait_same (sync buf) b (sym (feed_round-eq-sync buf) ∙ e) in
    rw same (
      feed_round-eq-sync (buf ++ d)
      ∙ rw (sync-append buf d) (sym (feed_round-eq-sync (sync buf ++ d))))

long_then :
    (buf d : List ℕ) → 2 ≤ length (sync buf) → feed_round (buf ++ d) ≡ frame_round (sync buf ++ d)
long_then buf d h = feed_round-eq-sync (buf ++ d) ∙ rw (sync-append buf d) (rw (sync_stays buf d h))

pub oversize_then : (buf d : List ℕ) → feed_round buf ≡ oversize → feed_round (buf ++ d) ≡ oversize
oversize_then buf d e =
    let e' : frame_round (sync buf) ≡ oversize = sym (feed_round-eq-sync buf) ∙ e in
    long_then buf d (omega (arith, oversize_long (sync buf) e')) ∙ oversize-append (sync buf) d e'

pub more_then :
    (buf d f r : List ℕ) → feed_round buf ≡ more f r → feed_round (buf ++ d) ≡ more f (r ++ d)
more_then buf d f r e =
    let e' : frame_round (sync buf) ≡ more f r = sym (feed_round-eq-sync buf) ∙ e in
    long_then buf d (omega (arith, (more_parts (sync buf) f r e').0))
    ∙ more-append (sync buf) d f r e'

pub more_shorter : (buf f r : List ℕ) → feed_round buf ≡ more f r → length r + 10 ≤ length buf
more_shorter buf f r e =
    let e' : frame_round (sync buf) ≡ more f r = sym (feed_round-eq-sync buf) ∙ e in
    let (long, fits, small, ef, er) = more_parts (sync buf) f r e' in
    let n = 10 + from_bytes 0 (take 4 (drop 2 (sync buf))) in
    omega (arith, length-sync buf, ap (λ (t : List ℕ). length t) er, length-drop n (sync buf))

pub wait_shorter : (buf b : List ℕ) → feed_round buf ≡ wait b → length b ≤ length buf
wait_shorter buf b e =
    let same : b ≡ sync buf = wait_same (sync buf) b (sym (feed_round-eq-sync buf) ∙ e) in
    rw same (length-sync buf)
