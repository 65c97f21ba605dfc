-- ===== src/Session/Waiting.antt =====
-- The loop that waits for an answer, step by step.
use hymer_connect_ha.Prelude.{
  ◌⊎◌, refl, ℕ, ◌≡◌, ◌∙◌, sym, ap, Option, none, some, List, [], ◌∷◌, Option-cases, inl, inr,
}
use hymer_connect_ha.Prelude.Result.{transport_error, Result, ok, err, stuck}
use hymer_connect_ha.Session.{
  Event, plaintext, fails, Stream, Waited, first_answer, after_event, await_answer, feed_chunks,
}

-- A frame of a list.
abbrev pub Among : List ℕ → List (List ℕ) → Type 0
Among frame [] = ⊥
Among frame (f ∷ frames) = (f ≡ frame) ⊎ Among frame frames

-- A frame that is pending, or that the reassembly gives for the chunks of an event, those of the
-- events before having been fed.
pub data Delivered (frame : List ℕ) : List ℕ → List (List ℕ) → List Event → Type 0 where
  is_pending :
      {buffer : List ℕ} {pending : List (List ℕ)} {events : List Event}
      → Among frame pending
      → Delivered frame buffer pending events
  arrives :
      {buffer left : List ℕ} {pending frames kept chunks : List (List ℕ)} {events : List Event}
      → feed_chunks buffer [] chunks ≡ (ok frames, left, kept)
      → Delivered frame left frames events
      → Delivered frame buffer pending (plaintext chunks ∷ events)

module _ {A : Type 0} (judge : List ℕ → Option (Result A)) where
  -- A frame of the stream that the loop ends with.
  abbrev pub EndsWith : List ℕ → List (List ℕ) → List Event → Result A → Type 0
  EndsWith buffer pending events r =
      (frame : List ℕ) × Delivered frame buffer pending events × (judge frame ≡ some r)

  pub first_answer_skip :
      (frame : List ℕ) (frames : List (List ℕ))
      → judge frame ≡ none
      → first_answer judge (frame ∷ frames) ≡ first_answer judge frames
  unfolding first_answer
  first_answer_skip frame frames e = rw (e, first_answer)

  pub first_answer_end :
      (frame : List ℕ) (frames : List (List ℕ)) (r : Result A)
      → judge frame ≡ some r
      → first_answer judge (frame ∷ frames) ≡ some (r, frames)
  unfolding first_answer
  first_answer_end frame frames r e = rw (e, first_answer)

  pub await_found :
      (events : List Event) (buffer : List ℕ) (pending rest : List (List ℕ)) (r : Result A)
      → first_answer judge pending ≡ some (r, rest)
      → await_answer judge events buffer pending
        ≡ (r, record { frame_buffer = buffer; pending_frames = rest; events = events })
  unfolding await_answer
  await_found [] buffer pending rest r e = rw (e, await_answer)
  await_found (event ∷ events) buffer pending rest r e = rw (e, await_answer)

  pub await_more :
      (event : Event) (events : List Event) (buffer : List ℕ) (pending : List (List ℕ))
      → first_answer judge pending ≡ none
      → await_answer judge (event ∷ events) buffer pending
        ≡ after_event judge (await_answer judge events) events buffer event
  unfolding await_answer
  await_more event events buffer pending e = rw (e, await_answer)

  pub await_timeout :
      (buffer : List ℕ) (pending : List (List ℕ))
      → first_answer judge pending ≡ none
      → await_answer judge [] buffer pending
        ≡ (err transport_error, record { frame_buffer = buffer; pending_frames = []; events = [] })
  unfolding await_answer
  await_timeout buffer pending e = rw (e, await_answer)

  first_answer-Among :
      (frames : List (List ℕ)) (r : Result A) (rest : List (List ℕ))
      → first_answer judge frames ≡ some (r, rest)
      → (frame : List ℕ) × Among frame frames × (judge frame ≡ some r)
  first_answer-Among [] r rest e = unfold first_answer in cc
  first_answer-Among (frame ∷ frames) r rest e = elim (Option-cases (judge frame)) [
    | inl going_on ↦
        let (found, among, judged) =
          first_answer-Among frames r rest (sym (first_answer_skip frame frames going_on) ∙ e) in
        (found, inr among, judged)
    | inr (r', found) ↦
        let same = sym (first_answer_end frame frames r' found) ∙ e in
        let same' : r' ≡ r = cc in (frame, inl refl, found ∙ ap some same')
  ]

  -- An event whose chunks were fed.
  pub after_event_ok :
      (await : List ℕ → List (List ℕ) → Waited A) (events : List Event) (buffer left : List ℕ)
      (chunks frames pending : List (List ℕ))
      → feed_chunks buffer [] chunks ≡ (ok frames, left, pending)
      → after_event judge await events buffer (plaintext chunks) ≡ await left frames
  unfolding after_event
  after_event_ok await events buffer left chunks frames pending e = rw (
    ap (λ (f : Result (List (List ℕ)) × List ℕ × List (List ℕ)). f.0) e,
    ap (λ (f : Result (List (List ℕ)) × List ℕ × List (List ℕ)). f.1) e,
    after_event,
  )

  after_event-EndsWith :
      (await : List ℕ → List (List ℕ) → Waited A) (events : List Event) (buffer : List ℕ)
      (pending : List (List ℕ)) (event : Event) (a : A) (stream : Stream)
      → ((left : List ℕ) (frames : List (List ℕ))
          → await left frames ≡ (ok a, stream)
          → EndsWith left frames events (ok a))
      → after_event judge await events buffer event ≡ (ok a, stream)
      → EndsWith buffer pending (event ∷ events) (ok a)
  unfolding after_event
  after_event-EndsWith await events buffer pending (fails x) a stream later e = cc
  after_event-EndsWith await events buffer pending (plaintext chunks) a stream later e =
      fed (feed_chunks buffer [] chunks) refl e
    where
      fed :
          (f : Result (List (List ℕ)) × List ℕ × List (List ℕ))
          → feed_chunks buffer [] chunks ≡ f
          → elim f.0 [
            | ok frames ↦ await f.1 frames
            | err x ↦ (err x, record { frame_buffer = f.1; pending_frames = f.2; events = events })
            | stuck ↦ (stuck, record { frame_buffer = f.1; pending_frames = f.2; events = events })
          ]
            ≡ (ok a, stream)
          → EndsWith buffer pending (plaintext chunks ∷ events) (ok a)
      fed (ok frames, left, kept) fed_so e =
          let (frame, delivered, judged) = later left frames e in
          (frame, arrives fed_so delivered, judged)
      fed (err x, left, kept) fed_so e = cc
      fed (stuck, left, kept) fed_so e = cc

  -- The pending frames hold the answer, or else the loop waits.
  pending_or :
      (events : List Event) (buffer : List ℕ) (pending : List (List ℕ)) (a : A) (stream : Stream)
      → await_answer judge events buffer pending ≡ (ok a, stream)
      → (first_answer judge pending ≡ none → EndsWith buffer pending events (ok a))
      → EndsWith buffer pending events (ok a)
  pending_or events buffer pending a stream e otherwise =
      elim (Option-cases (first_answer judge pending)) [
        | inl going_on ↦ otherwise going_on
        | inr ((r, rest), found) ↦
            let same = sym (await_found events buffer pending rest r found) ∙ e in
            let (frame, among, judged) = first_answer-Among pending r rest found in
            (frame, is_pending among, judged ∙ ap (λ (w : Waited A). some w.0) same)
      ]

  -- A loop that returns has judged a frame of its stream so.
  pub await_answer-EndsWith :
      (events : List Event) (buffer : List ℕ) (pending : List (List ℕ)) (a : A) (stream : Stream)
      → await_answer judge events buffer pending ≡ (ok a, stream)
      → EndsWith buffer pending events (ok a)
  await_answer-EndsWith [] buffer pending a stream e =
      pending_or [] buffer pending a stream e
        (λ going_on. let t = await_timeout buffer pending going_on in absurd (cc))
  await_answer-EndsWith (event ∷ events) buffer pending a stream e =
      pending_or (event ∷ events) buffer pending a stream e (λ going_on.
        after_event-EndsWith (await_answer judge events) events buffer pending event a stream
          (λ left frames. await_answer-EndsWith events left frames a stream)
          (sym (await_more event events buffer pending going_on) ∙ e))
