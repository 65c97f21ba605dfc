-- ===== src/SignalR/Safety/Messages.antt =====
-- _handle_message of signalr_client.py is safe: a response settles a future only if it is pending.
use hymer_connect_ha.Prelude.{
  inr, inl, ℕ, Bool, true, false, Option, none, some, List, [], ◌∷◌, refl, Bool-cases, Option-cases,
}
use hymer_connect_ha.Prelude.Dict.{get}
use hymer_connect_ha.Pia.Wire.{Floats}
use hymer_connect_ha.Pia.Slots.{SlotValue, KnownSlots}
use hymer_connect_ha.Pia.Envelopes.{ResponseMessage}
use hymer_connect_ha.SignalR.{done, Pending}
use hymer_connect_ha.SignalR.Json.{Fields, member, is_num, number_of}
use hymer_connect_ha.SignalR.Messages.{
  complete, handle_completion, completion_success, outcome_of, answer_pending, answer,
  reports_expiry, follow_standby, apply_slots, store_and_answer, update, handle_response,
  handle_payload, handle_message, is_pia_response, payload_argument,
}
use hymer_connect_ha.SignalR.Core.{core, completions-Fine, settle_undone-Kept}
use hymer_connect_ha.SignalR.Safety.{
  IsSafe, Safe-refl, Safe-trans, Safe-core, Safe-if, schedule_token_refresh_retry-Safe, forget-Safe,
  settle_response-Safe, schedule_standby_wake_refresh-Safe, schedule_standby_entry_refresh-Safe,
}

module _ {Value : Type 0} where
  complete-Safe : (id : Option ℕ) (success : Bool) → IsSafe {Value = Value} (complete id success)
  unfolding complete
  complete-Safe none success c = Safe-refl c
  complete-Safe (some id) success c = elim (Option-cases (get id c.completion_futures)) [
    | inl gone ↦ rw (gone, complete) (Safe-refl c)
    | inr (r, there) ↦
        rw (there, complete)
          (record { fine = completions-Fine (core c) _ (settle_undone-Kept r _ c.completions) })
  ]

  handle_completion-Safe : (msg : Fields) → IsSafe {Value = Value} (handle_completion msg)
  unfolding handle_completion
  handle_completion-Safe msg c = elim (Option-cases (completion_success msg)) [
    | inl fails ↦ rw (fails, handle_completion) (Safe-refl c)
    | inr (success, e) ↦
        rw (e, handle_completion) (complete-Safe (number_of (member "invocationId" msg)) success c)
  ]

  answer_pending-Safe :
      (response : ResponseMessage) (found : Option Pending)
      → IsSafe {Value = Value} (answer_pending response found)
  unfolding answer_pending
  answer_pending-Safe response none c = Safe-refl c
  answer_pending-Safe response (some p) c =
      elim (Bool-cases (done (c.responses.outcome p.future))) [
        | inl settled ↦ rw settled (Safe-refl c)
        | inr undone ↦ rw undone (
            Safe-trans (settle_response-Safe p.future (outcome_of response) c undone)
              (forget-Safe response.request_id _))
      ]

  pub answer-Safe : (response : Option ResponseMessage) → IsSafe {Value = Value} (answer response)
  unfolding answer
  answer-Safe none c = Safe-refl c
  answer-Safe (some response) c =
      answer_pending-Safe response (get response.request_id c.pending_requests) c

  module _ (is_standby : Value → Bool) (switches : List (ℕ × ℕ)) (now : ℕ) where
    follow_standby-Safe : (was is : Bool) → IsSafe (follow_standby is_standby switches now was is)
    unfolding follow_standby
    follow_standby-Safe true false c =
        Safe-trans {d = record c { scu_standby_since = 0 }} (Safe-core refl)
          (schedule_standby_wake_refresh-Safe _)
    follow_standby-Safe false true c =
        Safe-trans {d = record c { scu_standby_since = now }} (Safe-core refl)
          (schedule_standby_entry_refresh-Safe _)
    follow_standby-Safe true true c = Safe-refl c
    follow_standby-Safe false false c = Safe-refl c

    apply_slots-Safe :
        (slots : List ((ℕ × ℕ) × Value)) → IsSafe (apply_slots is_standby switches now slots)
    unfolding apply_slots
    apply_slots-Safe slots c =
        Safe-trans {d = record c { slot_data = update c.slot_data slots }} (Safe-core refl)
          (follow_standby-Safe _ _ _)

    pub store_and_answer-Safe :
        (publish : List ((ℕ × ℕ) × Value) → Bool) (slots : List ((ℕ × ℕ) × Value))
        (response : Option ResponseMessage)
        → IsSafe (store_and_answer is_standby switches now publish slots response)
    unfolding store_and_answer
    store_and_answer-Safe publish [] response c = answer-Safe response c
    store_and_answer-Safe publish (slot ∷ slots) response c =
        Safe-trans (apply_slots-Safe (slot ∷ slots) c)
          (Safe-if (publish (slot ∷ slots)) (Safe-refl _) (answer-Safe response _))

module _ (floats : Floats) (is_printable : ℕ → Bool) (known : KnownSlots floats is_printable)
    (b64decode : List ℕ → Option (List ℕ)) (switches : List (ℕ × ℕ)) (upper : List ℕ → List ℕ)
    (publish : List ((ℕ × ℕ) × SlotValue floats is_printable) → Bool) (now : ℕ) where
  handle_response-Safe :
      (payload : List ℕ) (response : Option ResponseMessage)
      → IsSafe (
          handle_response floats is_printable known b64decode switches upper publish now payload
            response)
  unfolding handle_response
  handle_response-Safe payload none c = store_and_answer-Safe _ switches now publish _ none c
  handle_response-Safe payload (some response) c =
      Safe-if (reports_expiry (some response))
        (schedule_token_refresh_retry-Safe (some response.request_id) c)
        (store_and_answer-Safe _ switches now publish _ (some response) c)

  handle_payload-Safe :
      (payload : List ℕ)
      → IsSafe
          (handle_payload floats is_printable known b64decode switches upper publish now payload)
  unfolding handle_payload
  handle_payload-Safe [] c = Safe-refl c
  handle_payload-Safe (char ∷ chars) c = handle_response-Safe (char ∷ chars) _ c

  pub handle_message-Safe :
      (msg : Fields)
      → IsSafe (handle_message floats is_printable known b64decode switches upper publish now msg)
  unfolding handle_message
  handle_message-Safe msg c = Safe-if (is_num 6 (member "type" msg)) (Safe-refl c) (
      Safe-if (is_num 3 (member "type" msg)) (handle_completion-Safe msg c) (
        Safe-if (is_pia_response (member "target" msg))
          (handle_payload-Safe (payload_argument (member "arguments" msg)) c) (Safe-refl c)))
