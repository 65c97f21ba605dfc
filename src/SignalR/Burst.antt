-- ===== src/SignalR/Burst.antt =====
-- The burst of startup subscriptions, _send_initial_subscriptions of signalr_client.py, by the replies
-- that its requests get.
use hymer_connect_ha.Prelude.{
  ◌≤◌, inr, inl, sym, ap, ◌∙◌, ℕ, ◌+◌, true, false, Option, none, some, List, [], ◌∷◌, ◌≡◌, refl,
  arith, ◌==◌, if◌then◌else◌, Bool-cases,
}
use hymer_connect_ha.Pia.Wire.{Floats}
use hymer_connect_ha.SignalR.{
  api_error, other_error, pia_failed, Client, Reply, returned, raised, was_cancelled,
}
use hymer_connect_ha.SignalR.Requests.{
  Send, is_transient, send_pia_request, subscribe_from, send_initial_subscriptions,
}

-- No answer, or a status that says nothing about the session, ends no burst.
pub data Tolerated : Reply → Type 0 where
  answered : Tolerated (returned true)
  unanswered : Tolerated (returned false)
  refused : {status id : ℕ} → 15 ≤ status → status ≤ 18 → Tolerated (raised (pia_failed status id))

transient-range : (status : ℕ) → is_transient status ≡ true → (15 ≤ status) × (status ≤ 18)
unfolding is_transient
transient-range status h = (ground (arith, h), ground (arith, h))

lasting-range : (status : ℕ) → is_transient status ≡ false → 15 ≤ status → status ≤ 18 → ⊥
unfolding is_transient
lasting-range status h low high = ground (arith, h, low, high)

refusal :
    {status id : ℕ} → is_transient status ≡ false → ¬ (Tolerated (raised (pia_failed status id)))
refusal {status} lasting (refused low high) = lasting-range status lasting low high

-- How many of the replies are answers.
unfoldable pub answers : List Reply → ℕ
answers [] = 0
answers (returned true ∷ replies) = answers replies + 1
answers (returned false ∷ replies) = answers replies
answers (raised e ∷ replies) = answers replies
answers (was_cancelled ∷ replies) = answers replies

module _ {Value : Type 0} (floats : Floats) (b64decode : List ℕ → Option (List ℕ))
    (sends : ℕ → Send Value) where
  -- The requests from the `n`-th on, one after the other: each gets a tolerated reply, up to the
  -- last or up to one that is not tolerated, `stop`.
  pub data Run
      : ℕ → List (List ℕ) → Client Value → List Reply → Option Reply → Client Value → Type 0 where
    finished : {n : ℕ} {c : Client Value} → Run n [] c [] none c
    goes_on :
        {n : ℕ} {payload : List ℕ} {payloads : List (List ℕ)} {c c' d : Client Value}
        {reply : Reply} {replies : List Reply} {stop : Option Reply}
        → send_pia_request floats b64decode payload (sends n) c ≡ (reply, c')
        → Tolerated reply
        → Run (n + 1) payloads c' replies stop d
        → Run n (payload ∷ payloads) c (reply ∷ replies) stop d
    stops :
        {n : ℕ} {payload : List ℕ} {payloads : List (List ℕ)} {c d : Client Value} {reply : Reply}
        → send_pia_request floats b64decode payload (sends n) c ≡ (reply, d)
        → ¬ (Tolerated reply)
        → Run n (payload ∷ payloads) c [] (some reply) d

  -- What a burst comes to: the reply that stopped it, else whether there was an answer.
  abbrev pub verdict : ℕ → Option Reply → Reply
  verdict succeeded (some reply) = reply
  verdict succeeded none = if succeeded == 0 then raised api_error else returned true

  -- The same, with the successes counted before.
  abbrev Ran : ℕ → List (List ℕ) → ℕ → Client Value → Reply × Client Value → Type 0
  Ran n payloads succeeded c ended =
      (replies : List Reply) × (stop : Option Reply) × Run n payloads c replies stop ended.1
      × (ended.0 ≡ verdict (succeeded + answers replies) stop)

  -- What follows a reply that is tolerated.
  after_tolerated :
      (n : ℕ) (payload : List ℕ) (payloads : List (List ℕ)) (c c' : Client Value) (reply : Reply)
      (succeeded more : ℕ) (ended : Reply × Client Value)
      → send_pia_request floats b64decode payload (sends n) c ≡ (reply, c')
      → Tolerated reply
      → ((replies : List Reply) → succeeded + answers (reply ∷ replies) ≡ more + answers replies)
      → Ran (n + 1) payloads more c' ended
      → Ran n (payload ∷ payloads) succeeded c ended
  after_tolerated n payload payloads c c' reply succeeded more ended sent fine count
        (replies, stop, run, e) =
      (
        reply ∷ replies,
        stop,
        goes_on sent fine run,
        e ∙ ap (λ k. verdict k stop) (sym (count replies)),
      )

  after_any :
      (n : ℕ) (payload : List ℕ) (payloads : List (List ℕ)) (c : Client Value) (reply : Reply)
      (c' : Client Value) (succeeded : ℕ)
      → send_pia_request floats b64decode payload (sends n) c ≡ (reply, c')
      → ((m : ℕ)
          → Ran (n + 1) payloads m c' (subscribe_from floats b64decode sends (n + 1) payloads m c'))
      → Ran n (payload ∷ payloads) succeeded c (elim reply as (λ _. Reply × Client Value) [
        | returned true ↦ subscribe_from floats b64decode sends (n + 1) payloads (succeeded + 1) c'
        | returned false ↦ subscribe_from floats b64decode sends (n + 1) payloads succeeded c'
        | raised api_error ↦ (raised api_error, c')
        | raised other_error ↦ (raised other_error, c')
        | raised (pia_failed status id) ↦
            if is_transient status
            then subscribe_from floats b64decode sends (n + 1) payloads succeeded c'
            else (raised (pia_failed status id), c')
        | was_cancelled ↦ (was_cancelled, c')
      ])
  after_any n payload payloads c (returned true) c' succeeded sent next =
      after_tolerated n payload payloads c c' _ succeeded (succeeded + 1) _ sent answered
        (λ replies. unfold answers in omega arith) (next (succeeded + 1))
  after_any n payload payloads c (returned false) c' succeeded sent next =
      after_tolerated n payload payloads c c' _ succeeded succeeded _ sent unanswered
        (λ replies. unfold answers in refl) (next succeeded)
  after_any n payload payloads c (raised api_error) c' succeeded sent next =
      ([], some (raised api_error), stops sent (λ t. elim t [ ]), refl)
  after_any n payload payloads c (raised other_error) c' succeeded sent next =
      ([], some (raised other_error), stops sent (λ t. elim t [ ]), refl)
  after_any n payload payloads c (raised (pia_failed status id)) c' succeeded sent next =
      elim (Bool-cases (is_transient status)) [
        | inl transient ↦ rw transient (
            after_tolerated n payload payloads c c' _ succeeded succeeded _ sent
              (refused (transient-range status transient).0 (transient-range status transient).1)
              (λ replies. unfold answers in refl) (next succeeded))
        | inr lasting ↦
            rw lasting
              ([], some (raised (pia_failed status id)), stops sent (refusal lasting), refl)
      ]
  after_any n payload payloads c was_cancelled c' succeeded sent next =
      ([], some was_cancelled, stops sent (λ t. elim t [ ]), refl)

  ran :
      (n : ℕ) (payloads : List (List ℕ)) (succeeded : ℕ) (c : Client Value)
      → Ran n payloads succeeded c (subscribe_from floats b64decode sends n payloads succeeded c)
  unfolding subscribe_from
  ran n [] succeeded c = elim (Bool-cases (succeeded == 0)) [
    | inl e ↦ rw e ([], none, finished, unfold answers in ground arith)
    | inr e ↦ rw e ([], none, finished, unfold answers in ground arith)
  ]
  ran n (payload ∷ payloads) succeeded c =
      let next = ran (n + 1) payloads in
      let (reply, c') = send_pia_request floats b64decode payload (sends n) c in
      after_any n payload payloads c reply c' succeeded refl (λ m. next m c')

  -- The burst of subscriptions sends its requests in order, each on the client that the one before
  -- left, up to the last or up to the first reply that is neither a Boolean nor a failure with a
  -- status of 15 to 18; that reply is what the burst ends with, and otherwise it returns if a
  -- request was answered and raises if none was.
  pub send_initial_subscriptions-Run :
      (payloads : List (List ℕ)) (c : Client Value)
      → (replies : List Reply) × (stop : Option Reply) × Run 0 payloads c replies stop
          (send_initial_subscriptions floats b64decode sends payloads c).1
        × ((send_initial_subscriptions floats b64decode sends payloads c).0
            ≡ verdict (answers replies) stop)
  unfolding send_initial_subscriptions
  send_initial_subscriptions-Run payloads c =
      let (replies, stop, run, e) = ran 0 payloads 0 c in
      (replies, stop, run, e ∙ ap (λ (k : ℕ). verdict k stop) (omega arith))
