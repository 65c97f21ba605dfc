-- ===== src/Transport/Shape.antt =====
-- Whatever the stream holds, what is delivered has the shape of a frame, and little is kept.
use mathlib.Core.Path.{subst}
use hymer_connect_ha.Prelude.{
  All-snoc, inr, inl, ap, length-take, All, ◌+◌, drop, true, ◌≤◌, take, ◌<◌, ℕ, zero, suc, List, [],
  ◌∷◌, ◌++◌, ◌≡◌, refl, sym, ◌∙◌, length, arith,
}
use hymer_connect_ha.Prelude.Result.{transport_error, ok-injective, ok, err}
use hymer_connect_ha.Frame.{ble_pia_magic, starts_with, from_bytes}
use hymer_connect_ha.Transport.{
  max_pia_frame, wait, more, frame_round, feed_round, feed_loop, feed_frames,
}
use hymer_connect_ha.Transport.Sync.{sync, feed_round-eq-sync}
use hymer_connect_ha.Transport.Chunks.{more_parts, wait_same}
use hymer_connect_ha.Transport.Split.{Fed, Round-cases, loop_more, loop_wait, loop_oversize}

-- The length that a frame's header declares.
abbrev pub declared : List ℕ → ℕ
declared f = from_bytes 0 (take 4 (drop 2 f))

pub record IsFrame (f : List ℕ) : Type 0 where
  pub magic : starts_with f ble_pia_magic ≡ true
  pub whole : length f ≡ 10 + declared f
  pub small : declared f ≤ max_pia_frame

take-take : (m n : ℕ) (s : List ℕ) → m ≤ n → take m (take n s) ≡ take m s
take-take zero n s h = refl
take-take (suc m) zero s h = absurd (omega arith)
take-take (suc m) (suc n) [] h = refl
take-take (suc m) (suc n) (b ∷ s) h = ap (λ t. b ∷ t) (take-take m n s (omega arith))

-- Cutting behind the header leaves the header.
declared-take : (n : ℕ) (s : List ℕ) → 6 ≤ n → declared (take n s) ≡ declared s
declared-take zero s h = absurd (omega arith)
declared-take (suc zero) s h = absurd (omega arith)
declared-take (suc (suc n)) [] h = refl
declared-take (suc (suc n)) (b ∷ []) h = refl
declared-take (suc (suc n)) (b ∷ c ∷ s) h = ap (from_bytes 0) (take-take 4 n s (omega arith))

starts_with-take :
    (n : ℕ) (s : List ℕ)
    → 2 ≤ n
    → starts_with (take n s) ble_pia_magic ≡ starts_with s ble_pia_magic
unfolding starts_with
starts_with-take zero s h = absurd (omega arith)
starts_with-take (suc zero) s h = absurd (omega arith)
starts_with-take (suc (suc n)) [] h = refl
starts_with-take (suc (suc n)) (b ∷ []) h = refl
starts_with-take (suc (suc n)) (b ∷ c ∷ s) h = refl

starts_with-sync :
    (buf : List ℕ) → 2 ≤ length (sync buf) → starts_with (sync buf) ble_pia_magic ≡ true
unfolding sync starts_with
starts_with-sync [] h = absurd (omega arith)
starts_with-sync (b ∷ []) h = absurd (ground arith)
starts_with-sync (b ∷ c ∷ buf) h = ground (arith, starts_with-sync (c ∷ buf))

more-IsFrame : (buf f r : List ℕ) → feed_round buf ≡ more f r → IsFrame f
more-IsFrame buf f r e =
    let s = sync buf in
    let n = 10 + declared s in
    let (long, fits, small, ef, er) = more_parts s f r (sym (feed_round-eq-sync buf) ∙ e) in
    rw ef (record {
      magic = starts_with-take n s (omega arith) ∙ starts_with-sync buf (omega arith);
      whole = omega (arith, declared-take n s (omega arith), length-take n s);
      small = omega (arith, declared-take n s (omega arith));
    })

short_or_small : (s : List ℕ) → frame_round s ≡ wait s → length s < 10 + max_pia_frame
unfolding frame_round
short_or_small s e = ground arith

-- What a round keeps for the next call is less than one frame of the largest size.
wait_small : (buf b : List ℕ) → feed_round buf ≡ wait b → length b < 10 + max_pia_frame
wait_small buf b e =
    let e' : frame_round (sync buf) ≡ wait b = sym (feed_round-eq-sync buf) ∙ e in
    let same : b ≡ sync buf = wait_same (sync buf) b e' in
    rw same (short_or_small (sync buf) (rw same at e'))

feed_loop_shape :
    (n : ℕ) (buf : List ℕ) (done frames : List (List ℕ)) (left : List ℕ)
    → All IsFrame done
    → feed_loop n buf done ≡ (ok frames, left)
    → All IsFrame frames × (length left < 10 + max_pia_frame)
feed_loop_shape zero buf done frames left h e = unfold feed_loop in cc (ap (λ (t : Fed). t.0) e)
feed_loop_shape (suc n) buf done frames left h e = elim (Round-cases (feed_round buf)) [
  | inl (b, r) ↦
      let same : (ok done, b) ≡ (ok frames, left) = sym (loop_wait n buf done b r) ∙ e in
      (
        subst (All IsFrame) (ok-injective (ap (λ (t : Fed). t.0) same)) h,
        subst (λ t. length t < 10 + max_pia_frame) (ap (λ (t : Fed). t.1) same)
            (wait_small buf b r),
      )
  | inr (inl r) ↦
      let raised : (err transport_error, []) ≡ (ok frames, left) =
        sym (loop_oversize n buf done r) ∙ e in
      cc (ap (λ (t : Fed). t.0) raised)
  | inr (inr (f, b, r)) ↦
      feed_loop_shape n b (done ++ (f ∷ [])) frames left
        (All-snoc IsFrame done f (more-IsFrame buf f b r) h) (sym (loop_more n buf done f b r) ∙ e)
]

-- Where a call returns, whatever bytes were buffered and received, each frame that it delivers
-- starts with the magic bytes, is as long as its header declares and declares at most 64 KiB, and
-- the buffer that it leaves is shorter than the longest frame.
pub feed_frames_shape :
    (buffer chunk : List ℕ) (frames : List (List ℕ)) (left : List ℕ)
    → feed_frames buffer chunk ≡ (ok frames, left)
    → All IsFrame frames × (length left < 10 + max_pia_frame)
unfolding feed_frames
feed_frames_shape buffer chunk frames left e =
    feed_loop_shape (suc (length (buffer ++ chunk))) (buffer ++ chunk) [] frames left tt e
