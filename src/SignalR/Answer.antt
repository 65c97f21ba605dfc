-- ===== src/SignalR/Answer.antt =====
-- What a PiaResponse does to the pending requests, _handle_message of signalr_client.py.
use mathlib.Core.Path.{subst}
use hymer_connect_ha.Prelude.{
  ◌⊎◌, ◌∙◌, ==→eq, inr, sym, ==_refl, ap, inl, ℕ, Bool, true, false, Option, none, some, List, [],
  ◌∷◌, ◌≡◌, ◌≢◌, refl, ◌==◌, if◌then◌else◌, Bool-cases, ◌++◌,
}
use hymer_connect_ha.Prelude.Dict.{get, get-pop, contains}
use hymer_connect_ha.Pia.Wire.{Floats}
use hymer_connect_ha.Pia.Slots.{SlotValue, KnownSlots}
use hymer_connect_ha.Pia.Envelopes.{ResponseMessage}
use hymer_connect_ha.SignalR.{
  pia_failed, exception, result, done, Outcome, Pending, Client, forget, settle_response, in_flight,
  enqueue, schedule_standby_wake_refresh, schedule_standby_entry_refresh,
  schedule_token_refresh_retry,
}
use hymer_connect_ha.SignalR.Messages.{
  outcome_of, answer_pending, answer, reports_expiry, follow_standby, apply_slots, store_and_answer,
  response_slots, handle_response,
}
use hymer_connect_ha.SignalR.Core.{Core, core, Inv}

module _ {Value : Type 0} where
  -- The request `id` is settled by `held` and forgotten; every other request is as before.
  pub record IsAnswered (id : ℕ) (p : Pending) (held : Outcome ResponseMessage) (c d : Client Value)
      : Type 0 where
    pub outcome : d.responses.outcome p.future ≡ held
    pub pending :
        (i : ℕ) → get i d.pending_requests ≡ (if id == i then none else get i c.pending_requests)
    pub apart :
        (i : ℕ) (q : Pending)
        → i ≢ id
        → get i c.pending_requests ≡ some q
        → d.responses.outcome q.future ≡ c.responses.outcome q.future

  pub answer-IsAnswered :
      (response : ResponseMessage) (p : Pending) (c : Client Value)
      → Inv (core c)
      → get response.request_id c.pending_requests ≡ some p
      → done (c.responses.outcome p.future) ≡ false
      → IsAnswered response.request_id p (outcome_of response) c (answer (some response) c)
  unfolding answer answer_pending forget settle_response
  answer-IsAnswered response p c inv there undone =
      rw (there, undone)
        (record {
          outcome = rw (==_refl p.future);
          pending = λ i. get-pop i response.request_id c.pending_requests;
          apart = λ i q other old. elim (Bool-cases (p.future == q.future)) [
            | inl eq ↦ absurd (
                other (
                  inv.apart i response.request_id q p old there (sym (==→eq p.future q.future eq))))
            | inr ne ↦ rw ne
          ];
        })

  module _ (is_standby : Value → Bool) (switches : List (ℕ × ℕ)) (now : ℕ) where
    -- The slots are no part of the futures.
    core-follow_standby :
        (was is : Bool) (c : Client Value)
        → core (follow_standby is_standby switches now was is c) ≡ core c
    unfolding follow_standby schedule_standby_wake_refresh schedule_standby_entry_refresh
    core-follow_standby true false c = elim (Bool-cases (in_flight c.standby_wake_refresh_task)) [
      | inl e ↦ rw e
      | inr e ↦ rw e
    ]
    core-follow_standby false true c = elim (Bool-cases (in_flight c.standby_entry_refresh_task)) [
      | inl e ↦ rw e
      | inr e ↦ rw e
    ]
    core-follow_standby true true c = refl
    core-follow_standby false false c = refl

    core-apply_slots :
        (slots : List ((ℕ × ℕ) × Value)) (c : Client Value)
        → core (apply_slots is_standby switches now slots c) ≡ core c
    unfolding apply_slots
    core-apply_slots slots c = core-follow_standby _ _ _

    -- `d` is the client after the slots.
    through_slots :
        (response : ResponseMessage) (p : Pending) (c d : Client Value)
        → core d ≡ core c
        → Inv (core c)
        → get response.request_id c.pending_requests ≡ some p
        → done (c.responses.outcome p.future) ≡ false
        → IsAnswered response.request_id p (outcome_of response) c (answer (some response) d)
    through_slots response p c d same inv there undone =
        let dict : d.pending_requests ≡ c.pending_requests = ap (λ (k : Core). k.pending) same in
        let heap : d.responses ≡ c.responses = ap (λ (k : Core). k.responses) same in
        let answered =
          answer-IsAnswered response p d (subst Inv (sym same) inv) (rw dict there)
            (rw heap undone) in
        record {
          outcome = answered.outcome;
          pending = λ i. answered.pending i ∙ rw dict;
          apart = λ i q other old. answered.apart i q other (rw dict old) ∙ rw heap;
        }

    store_and_answer-IsAnswered :
        (publish : List ((ℕ × ℕ) × Value) → Bool) (slots : List ((ℕ × ℕ) × Value))
        (response : ResponseMessage) (p : Pending) (c : Client Value)
        → publish slots ≡ false
        → Inv (core c)
        → get response.request_id c.pending_requests ≡ some p
        → done (c.responses.outcome p.future) ≡ false
        → IsAnswered response.request_id p
            (outcome_of response)
            c
            (store_and_answer is_standby switches now publish slots (some response) c)
    unfolding store_and_answer
    store_and_answer-IsAnswered publish [] response p c quiet inv there undone =
        answer-IsAnswered response p c inv there undone
    store_and_answer-IsAnswered publish (slot ∷ slots) response p c quiet inv there undone =
        rw quiet (
          through_slots response p c (apply_slots is_standby switches now (slot ∷ slots) c)
            (core-apply_slots (slot ∷ slots) c) inv there undone)

module _ (floats : Floats) (is_printable : ℕ → Bool) (known : KnownSlots floats is_printable)
    (b64decode : List ℕ → Option (List ℕ)) (switches : List (ℕ × ℕ)) (upper : List ℕ → List ℕ)
    (publish : List ((ℕ × ℕ) × SlotValue floats is_printable) → Bool) (now : ℕ) where
  -- Where a response that reports no expiry arrives for a pending request that is not settled,
  -- futures are created and not shared, and the callback of the coordinator does not raise: the
  -- future of that request holds the response if its status is 1, else the failure with its status
  -- and id, the request is no longer pending, and every other pending request stays, with what its
  -- future held.
  pub handle_response-IsAnswered :
      (payload : List ℕ) (response : ResponseMessage) (p : Pending)
      (c : Client (SlotValue floats is_printable))
      → reports_expiry (some response) ≡ false
      → publish (response_slots floats is_printable known b64decode payload (some response)) ≡ false
      → Inv (core c)
      → get response.request_id c.pending_requests ≡ some p
      → done (c.responses.outcome p.future) ≡ false
      → IsAnswered response.request_id p
          (if response.status == 1
            then result response
            else exception (pia_failed response.status response.request_id))
          c
          (handle_response floats is_printable known b64decode switches upper publish now payload
            (some response)
            c)
  unfolding handle_response outcome_of
  handle_response-IsAnswered payload response p c valid quiet inv there undone =
      rw valid
        (store_and_answer-IsAnswered _ switches now publish _ response p c quiet inv there undone)

  -- An expiry leaves the request pending, and sees to its replay.
  pub record IsQueued (id : ℕ) (c d : Client (SlotValue floats is_printable)) : Type 0 where
    pub untouched : core d ≡ core c
    pub slots : d.slot_data ≡ c.slot_data
    pub queued : contains id d.waiting_request_ids ≡ true
    pub refreshing : in_flight d.token_refresh_task ≡ true

  contains-snoc : (id : ℕ) (ids : List ℕ) → contains id (ids ++ (id ∷ [])) ≡ true
  unfolding contains
  contains-snoc id [] = rw (==_refl id)
  contains-snoc id (j ∷ ids) = elim (Bool-cases (j == id)) [
    | inl e ↦ rw e
    | inr e ↦ rw e (contains-snoc id ids)
  ]

  expired :
      (response : ResponseMessage)
      → (response.status ≡ 12) ⊎ (response.status ≡ 13)
      → reports_expiry (some response) ≡ true
  unfolding reports_expiry
  expired response (inl e) = rw e
  expired response (inr e) = rw e

  -- A response with a status of 12 or 13 changes no future, no pending request and no slot; its
  -- request id is in the queue afterwards, and a token refresh is in flight.
  pub handle_response-IsQueued :
      (payload : List ℕ) (response : ResponseMessage) (c : Client (SlotValue floats is_printable))
      → (response.status ≡ 12) ⊎ (response.status ≡ 13)
      → IsQueued response.request_id c (
          handle_response floats is_printable known b64decode switches upper publish now payload
            (some response)
            c)
  unfolding handle_response schedule_token_refresh_retry enqueue
  handle_response-IsQueued payload response c status =
      let id = response.request_id in
      rw (expired response status) (elim (Bool-cases (contains id c.waiting_request_ids)) [
        | inl old ↦ rw old (elim (Bool-cases (in_flight c.token_refresh_task)) [
          | inl busy ↦
              rw busy (record { untouched = refl; slots = refl; queued = old; refreshing = busy })
          | inr free ↦
              rw free (record { untouched = refl; slots = refl; queued = old; refreshing = refl })
        ])
        | inr new ↦ rw new (elim (Bool-cases (in_flight c.token_refresh_task)) [
          | inl busy ↦ rw busy (record {
            untouched = refl;
            slots = refl;
            queued = contains-snoc id c.waiting_request_ids;
            refreshing = busy;
          })
          | inr free ↦ rw free (record {
            untouched = refl;
            slots = refl;
            queued = contains-snoc id c.waiting_request_ids;
            refreshing = refl;
          })
        ])
      ])
