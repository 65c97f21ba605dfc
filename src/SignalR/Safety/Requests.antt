-- ===== src/SignalR/Safety/Requests.antt =====
-- send_pia_request and the commands of signalr_client.py are safe, if the other tasks are.
use hymer_connect_ha.Prelude.{
  inr, inl, ℕ, ◌+◌, Bool, true, false, Option, none, some, List, [], ◌∷◌, ◌≡◌, refl, ◌==◌,
  if◌then◌else◌, Bool-cases,
}
use hymer_connect_ha.Prelude.Dict.{get}
use hymer_connect_ha.Prelude.Result.{Result, ok, err, stuck}
use hymer_connect_ha.Pia.Wire.{Floats}
use hymer_connect_ha.Pia.Envelopes.{ResponseMessage}
use hymer_connect_ha.SignalR.{
  Failure, api_error, pia_failed, other_error, Outcome, waiting, result, exception, cancelled, done,
  Pending, Client, Reply, returned, raised, was_cancelled, is_live, in_flight,
}
use hymer_connect_ha.SignalR.Requests.{
  Wait, Send, register, join_pending, after_transmit, transmit, resume, await_response, request,
  send_pia_request, subscribe_from, send_built, is_transient,
}
use hymer_connect_ha.SignalR.Core.{core, register-Fine}
use hymer_connect_ha.SignalR.Safety.{
  Safe, IsSafe, Safe-refl, Safe-trans, Safe-if_snd, lose_connection-Safe, enqueue-Safe, forget-Safe,
  settle_response-Safe, send_request_payload-Safe,
}

-- The other tasks are safe wherever a request is suspended.
pub record WaitIsSafe {Value : Type 0} (wait : Wait Value) : Type 0 where
  pub meanwhile : IsSafe wait.meanwhile
  pub after_timeout : IsSafe wait.after_timeout

pub record SendIsSafe {Value : Type 0} (send : Send Value) : Type 0 where
  pub write : IsSafe send.write.meanwhile
  pub wait : WaitIsSafe send.wait

module _ {Value : Type 0} where
  register-Safe : (id : ℕ) (payload : List ℕ) (c : Client Value) → Safe c (register id payload c).1
  unfolding register
  register-Safe id payload c = record { fine = register-Fine id _ (core c) refl }

  join_pending-Safe :
      (id : ℕ) (payload : List ℕ) (found : Option Pending) (c : Client Value)
      → Safe c (join_pending id payload found c).2
  unfolding join_pending
  join_pending-Safe id payload none c = register-Safe id payload c
  join_pending-Safe id payload (some p) c =
      elim (Bool-cases (done (c.responses.outcome p.future))) [
        | inl settled ↦ rw settled (register-Safe id payload c)
        | inr undone ↦ rw undone (Safe-refl c)
      ]

  after_transmit-Safe :
      (id : ℕ) (sent : Option Failure × Client Value) → Safe sent.1 (after_transmit id sent).1
  unfolding after_transmit
  after_transmit-Safe id (none, c) = Safe-refl c
  after_transmit-Safe id (some e, c) = Safe-trans (lose_connection-Safe c) (forget-Safe id _)

  transmit-Safe :
      (id : ℕ) (payload : List ℕ) (sent : Bool) (send : Send Value)
      → SendIsSafe send
      → (c : Client Value) → Safe c (transmit id payload sent send.write c).1
  unfolding transmit
  transmit-Safe id payload sent send others c =
      Safe-if_snd (in_flight c.token_refresh_task) _ _ (enqueue-Safe id c) (
        Safe-if_snd sent _ _ (Safe-refl c) (
          Safe-trans (send_request_payload-Safe id payload send.write others.write c)
            (after_transmit-Safe id _)))

  -- `held` is what the future holds as the wait ends.
  resume-Safe :
      (id r : ℕ) (wait : Wait Value)
      → WaitIsSafe wait
      → (held : Outcome ResponseMessage) (c : Client Value) → c.responses.outcome r ≡ held
      → Safe c (resume id r wait.after_timeout held c).1
  unfolding resume
  resume-Safe id r wait others waiting c e =
      Safe-trans (settle_response-Safe r cancelled c (rw e))
        (Safe-trans (others.after_timeout _) (forget-Safe id _))
  resume-Safe id r wait others (result response) c e = Safe-refl c
  resume-Safe id r wait others (exception x) c e = forget-Safe id c
  resume-Safe id r wait others cancelled c e = Safe-refl c

  await_response-Safe :
      (id r : ℕ) (wait : Wait Value)
      → WaitIsSafe wait
      → (c : Client Value) → Safe c (await_response id r wait c).1
  unfolding await_response
  await_response-Safe id r wait others c =
      Safe-trans (others.meanwhile c) (resume-Safe id r wait others _ _ refl)

  pub request-Safe :
      (id : Option ℕ) (payload : List ℕ) (send : Send Value)
      → SendIsSafe send
      → (c : Client Value) → Safe c (request id payload send c).1
  unfolding request
  request-Safe none payload send others c = Safe-refl c
  request-Safe (some id) payload send others c =
      let (r, sent, c1) = join_pending id payload (get id c.pending_requests) c in
      let (fine, c2) = transmit id payload sent send.write c1 in
      Safe-trans (join_pending-Safe id payload (get id c.pending_requests) c) (
        Safe-trans (transmit-Safe id payload sent send others c1)
          (Safe-if_snd fine _ _ (await_response-Safe id r send.wait others.wait c2) (Safe-refl c2)))

  module _ (floats : Floats) (b64decode : List ℕ → Option (List ℕ)) where
    pub send_pia_request-Safe :
        (payload : List ℕ) (send : Send Value)
        → SendIsSafe send
        → (c : Client Value) → Safe c (send_pia_request floats b64decode payload send c).1
    unfolding send_pia_request
    send_pia_request-Safe payload send others c =
        Safe-if_snd (is_live c.ws) _ _ (request-Safe _ payload send others c) (Safe-refl c)

    module _ (sends : ℕ → Send Value) (others : (n : ℕ) → SendIsSafe (sends n)) where
      -- What follows a request of the burst.
      after_reply-Safe :
          (reply : Reply) (c : Client Value) (more : ℕ → Reply × Client Value)
          → ((n : ℕ) → Safe c (more n).1)
          → (succeeded : ℕ)
          → Safe c
              (elim reply as (λ _. Reply × Client Value) [
                | returned true ↦ more (succeeded + 1)
                | returned false ↦ more succeeded
                | raised api_error ↦ (raised api_error, c)
                | raised other_error ↦ (raised other_error, c)
                | raised (pia_failed status id) ↦
                    if is_transient status
                    then more succeeded
                    else (raised (pia_failed status id), c)
                | was_cancelled ↦ (was_cancelled, c)
              ]).1
      after_reply-Safe (returned true) c more safe n = safe (n + 1)
      after_reply-Safe (returned false) c more safe n = safe n
      after_reply-Safe (raised api_error) c more safe n = Safe-refl c
      after_reply-Safe (raised other_error) c more safe n = Safe-refl c
      after_reply-Safe (raised (pia_failed status id)) c more safe n =
          Safe-if_snd (is_transient status) _ _ (safe n) (Safe-refl c)
      after_reply-Safe was_cancelled c more safe n = Safe-refl c

      pub subscribe_from-Safe :
          (n : ℕ) (payloads : List (List ℕ)) (succeeded : ℕ) (c : Client Value)
          → Safe c (subscribe_from floats b64decode sends n payloads succeeded c).1
      unfolding subscribe_from
      subscribe_from-Safe n [] succeeded c =
          Safe-if_snd (succeeded == 0) _ _ (Safe-refl c) (Safe-refl c)
      subscribe_from-Safe n (payload ∷ payloads) succeeded c =
          let (reply, c') = send_pia_request floats b64decode payload (sends n) c in
          let next = subscribe_from-Safe (n + 1) payloads in
          Safe-trans (send_pia_request-Safe payload (sends n) (others n) c) (
            after_reply-Safe reply c'
              (λ m. subscribe_from floats b64decode sends (n + 1) payloads m c') (λ m. next m c')
              succeeded)

    pub send_built-Safe :
        (built : Result (List ℕ)) (send : Send Value)
        → SendIsSafe send
        → (c : Client Value) → Safe c (send_built floats b64decode built send c).1
    unfolding send_built
    send_built-Safe (ok payload) send others c = send_pia_request-Safe payload send others c
    send_built-Safe (err e) send others c = Safe-refl c
    send_built-Safe stuck send others c = Safe-refl c
