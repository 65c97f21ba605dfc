-- ===== src/Transport/Split.antt =====
-- One call of `_feed_frames` on two chunks, by the calls on each. Where the second raises, the one call
-- raises too and returns no frames, those of the first chunk included.
use mathlib.Core.List.{append_assoc, append-nil}
use hymer_connect_ha.Prelude.{
  ◌≢◌, length-append, ◌≤◌, inr, inl, ◌⊎◌, ap, ◌<◌, ℕ, zero, suc, List, [], ◌∷◌, ◌++◌, ◌≡◌, refl,
  sym, ◌∙◌, length, arith,
}
use hymer_connect_ha.Prelude.Result.{Error, ok-injective, transport_error, Result, ok, err, stuck}
use hymer_connect_ha.Transport.{Round, wait, oversize, more, feed_round, feed_loop, feed_frames}
use hymer_connect_ha.Transport.Chunks.{
  wait_then, wait_shorter, oversize_then, more_then, more_shorter,
}

abbrev pub Fed : Type 0
Fed = Result (List (List ℕ)) × List ℕ

-- Frames of an earlier call before those of a later one, unless that raises.
abbrev pub prepend : List (List ℕ) → Fed → Fed
prepend frames (ok more_frames, buf) = (ok (frames ++ more_frames), buf)
prepend frames (err e, buf) = (err e, buf)
prepend frames (stuck, buf) = (stuck, buf)

pub Round-cases :
    (r : Round)
    → ((b : List ℕ) × (r ≡ wait b))
      ⊎ ((r ≡ oversize) ⊎ ((f : List ℕ) × (b : List ℕ) × (r ≡ more f b)))
Round-cases (wait b) = inl (b, refl)
Round-cases oversize = inr (inl refl)
Round-cases (more f b) = inr (inr (f, b, refl))

-- The loop on each kind of round.
module _ (n : ℕ) (buf : List ℕ) (frames : List (List ℕ)) where
  pub loop_wait :
      (b : List ℕ) → feed_round buf ≡ wait b → feed_loop (suc n) buf frames ≡ (ok frames, b)
  unfolding feed_loop
  loop_wait b e = rw (e, feed_loop)

  pub loop_oversize :
      feed_round buf ≡ oversize → feed_loop (suc n) buf frames ≡ (err transport_error, [])
  unfolding feed_loop
  loop_oversize e = rw (e, feed_loop)

  pub loop_more :
      (f b : List ℕ)
      → feed_round buf ≡ more f b
      → feed_loop (suc n) buf frames ≡ feed_loop n b (frames ++ (f ∷ []))
  unfolding feed_loop
  loop_more f b e = rw (e, feed_loop)

loop_round :
    (n : ℕ) (x y : List ℕ) (frames : List (List ℕ))
    → feed_round x ≡ feed_round y
    → feed_loop (suc n) x frames ≡ feed_loop (suc n) y frames
unfolding feed_loop
loop_round n x y frames e = rw (e, feed_loop)

-- More fuel than bytes is enough: then the fuel does not matter.
pub feed_loop_fuel :
    (n m : ℕ) (buf : List ℕ) (frames : List (List ℕ))
    → length buf < n
    → length buf < m
    → feed_loop n buf frames ≡ feed_loop m buf frames
feed_loop_fuel zero m buf frames hn hm = absurd (omega arith)
feed_loop_fuel (suc n) zero buf frames hn hm = absurd (omega arith)
feed_loop_fuel (suc n) (suc m) buf frames hn hm = elim (Round-cases (feed_round buf)) [
  | inl (b, e) ↦ loop_wait n buf frames b e ∙ sym (loop_wait m buf frames b e)
  | inr (inl e) ↦ loop_oversize n buf frames e ∙ sym (loop_oversize m buf frames e)
  | inr (inr (f, b, e)) ↦
      loop_more n buf frames f b e
      ∙ feed_loop_fuel n m b (frames ++ (f ∷ [])) (omega (arith, more_shorter buf f b e))
          (omega (arith, more_shorter buf f b e))
      ∙ sym (loop_more m buf frames f b e)
]

prepend-prepend :
    (fs gs : List (List ℕ)) (r : Fed) → prepend fs (prepend gs r) ≡ prepend (fs ++ gs) r
prepend-prepend fs gs (ok hs, b) = ap (λ t. (ok t, b)) (sym (append_assoc fs gs hs))
prepend-prepend fs gs (err e, b) = refl
prepend-prepend fs gs (stuck, b) = refl

-- The frames that were there before stay in front.
feed_loop-prepend :
    (n : ℕ) (buf : List ℕ) (frames : List (List ℕ))
    → feed_loop n buf frames ≡ prepend frames (feed_loop n buf [])
feed_loop-prepend zero buf frames = unfold feed_loop in refl
feed_loop-prepend (suc n) buf frames = elim (Round-cases (feed_round buf)) [
  | inl (b, e) ↦ rw (loop_wait n buf frames b e, loop_wait n buf [] b e) (rw append-nil)
  | inr (inl e) ↦ rw (loop_oversize n buf frames e, loop_oversize n buf [] e)
  | inr (inr (f, b, e)) ↦
      rw (loop_more n buf frames f b e, loop_more n buf [] f b e)
        (feed_loop-prepend n b (frames ++ (f ∷ []))
          ∙ sym (
              ap (prepend frames) (feed_loop-prepend n b (f ∷ []))
              ∙ prepend-prepend frames (f ∷ []) (feed_loop n b [])))
]

-- A loop that has returned goes on, on more bytes, from the buffer that it left.
feed_loop_split :
    (n m k : ℕ) (buf d : List ℕ) (frames gs : List (List ℕ)) (b : List ℕ)
    → length buf < n
    → length (buf ++ d) < m
    → length (b ++ d) < k
    → feed_loop n buf frames ≡ (ok gs, b)
    → feed_loop m (buf ++ d) frames ≡ feed_loop k (b ++ d) gs
feed_loop_split zero m k buf d frames gs b hn hm hk e = absurd (omega arith)
feed_loop_split (suc n) zero k buf d frames gs b hn hm hk e = absurd (omega arith)
feed_loop_split (suc n) (suc m) k buf d frames gs b hn hm hk e =
    elim (Round-cases (feed_round buf)) [
      | inl (b', r) ↦
          let done : (ok frames, b') ≡ (ok gs, b) = sym (loop_wait n buf frames b' r) ∙ e in
          let same_b : b' ≡ b = ap (λ (t : Fed). t.1) done in
          let same_frames : ok frames ≡ ok gs = ap (λ (t : Fed). t.0) done in
          let shorter : length b' ≤ length buf = wait_shorter buf b' r in
          rw (← same_b, ← ok-injective same_frames)
            (loop_round m (buf ++ d) (b' ++ d) frames (wait_then buf b' d r)
              ∙ feed_loop_fuel (suc m) k (b' ++ d) frames
                  (omega (arith, length-append buf d, length-append b' d)) (rw (← same_b) at hk))
      | inr (inl r) ↦
          let raised : (err transport_error, []) ≡ (ok gs, b) =
            sym (loop_oversize n buf frames r) ∙ e in
          cc (ap (λ (t : Fed). t.0) raised)
      | inr (inr (f, b', r)) ↦
          loop_more m (buf ++ d) frames f (b' ++ d) (more_then buf d f b' r)
          ∙ feed_loop_split n m k b' d (frames ++ (f ∷ [])) gs b
              (omega (arith, more_shorter buf f b' r))
              (omega (arith, more_shorter buf f b' r, length-append buf d, length-append b' d)) hk
              (sym (loop_more n buf frames f b' r) ∙ e)
    ]

-- Where feeding a chunk c to the frame buffer returns frames and leaves a buffer, feeding c and
-- then d in one call gives the frames of c before those that d gives from the buffer left by c; if
-- d raises there, so does the one call, with the same buffer, and it returns no frames.
pub feed_frames-append :
    (buffer c d : List ℕ) (frames : List (List ℕ)) (left : List ℕ)
    → feed_frames buffer c ≡ (ok frames, left)
    → feed_frames buffer (c ++ d) ≡ prepend frames (feed_frames left d)
unfolding feed_frames
feed_frames-append buffer c d frames left e = rw (← append_assoc buffer c d) (
    feed_loop_split (suc (length (buffer ++ c))) (suc (length ((buffer ++ c) ++ d)))
      (suc (length (left ++ d))) (buffer ++ c) d [] frames left (omega arith) (omega arith)
      (omega arith) e
    ∙ feed_loop-prepend (suc (length (left ++ d))) (left ++ d) frames)

-- What has raised raises on more bytes too.
feed_loop_raised :
    (n m : ℕ) (buf d : List ℕ) (frames : List (List ℕ)) (x : Error) (b : List ℕ)
    → length buf < n
    → length (buf ++ d) < m
    → feed_loop n buf frames ≡ (err x, b)
    → feed_loop m (buf ++ d) frames ≡ (err x, b)
feed_loop_raised zero m buf d frames x b hn hm e = absurd (omega arith)
feed_loop_raised (suc n) zero buf d frames x b hn hm e = absurd (omega arith)
feed_loop_raised (suc n) (suc m) buf d frames x b hn hm e = elim (Round-cases (feed_round buf)) [
  | inl (b', r) ↦
      let done : (ok frames, b') ≡ (err x, b) = sym (loop_wait n buf frames b' r) ∙ e in
      cc (ap (λ (t : Fed). t.0) done)
  | inr (inl r) ↦
      loop_oversize m (buf ++ d) frames (oversize_then buf d r)
      ∙ sym (loop_oversize n buf frames r)
      ∙ e
  | inr (inr (f, b', r)) ↦
      loop_more m (buf ++ d) frames f (b' ++ d) (more_then buf d f b' r)
      ∙ feed_loop_raised n m b' d (frames ++ (f ∷ [])) x b (omega (arith, more_shorter buf f b' r))
          (omega (arith, more_shorter buf f b' r, length-append buf d, length-append b' d))
          (sym (loop_more n buf frames f b' r) ∙ e)
]

-- Where feeding a chunk c raises, feeding c and then d in one call raises the same and leaves the
-- same buffer.
pub feed_frames_raised :
    (buffer c d : List ℕ) (x : Error) (left : List ℕ)
    → feed_frames buffer c ≡ (err x, left)
    → feed_frames buffer (c ++ d) ≡ (err x, left)
unfolding feed_frames
feed_frames_raised buffer c d x left e = rw (← append_assoc buffer c d) (
    feed_loop_raised (suc (length (buffer ++ c))) (suc (length ((buffer ++ c) ++ d))) (buffer ++ c)
      d [] x left (omega arith) (omega arith) e)

feed_loop-ne-stuck :
    (n : ℕ) (buf : List ℕ) (frames : List (List ℕ)) (b : List ℕ)
    → length buf < n
    → feed_loop n buf frames ≢ (stuck, b)
feed_loop-ne-stuck zero buf frames b h e = absurd (omega arith)
feed_loop-ne-stuck (suc n) buf frames b h e = elim (Round-cases (feed_round buf)) [
  | inl (b', r) ↦
      let done : (ok frames, b') ≡ (stuck, b) = sym (loop_wait n buf frames b' r) ∙ e in
      cc (ap (λ (t : Fed). t.0) done)
  | inr (inl r) ↦
      let raised : (err transport_error, []) ≡ (stuck, b) =
        sym (loop_oversize n buf frames r) ∙ e in
      cc (ap (λ (t : Fed). t.0) raised)
  | inr (inr (f, b', r)) ↦
      feed_loop-ne-stuck n b' (frames ++ (f ∷ [])) b (omega (arith, more_shorter buf f b' r))
        (sym (loop_more n buf frames f b' r) ∙ e)
]

-- On every buffer and chunk a call of the frame reassembly returns or raises: with more fuel than
-- bytes its loop never runs out.
pub feed_frames-ne-stuck : (buffer c b : List ℕ) → feed_frames buffer c ≢ (stuck, b)
unfolding feed_frames
feed_frames-ne-stuck buffer c b =
    feed_loop-ne-stuck (suc (length (buffer ++ c))) (buffer ++ c) [] b (omega arith)
