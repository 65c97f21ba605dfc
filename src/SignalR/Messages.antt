-- ===== src/SignalR/Messages.antt =====
-- _handle_message of signalr_client.py, and the standby of the vehicle. A raised exception is swallowed
-- by the listener, so the function gives the state that is left, also where it raises. `publish` tells
-- whether the coordinator's callback raises; `upper` is `str.upper`, `now` the clock.
use hymer_connect_ha.Prelude.{
  ℕ, Bool, true, false, not, ◌&&◌, ◌||◌, Option, none, some, List, [], ◌∷◌, ◌==◌, if◌then◌else◌,
}
use hymer_connect_ha.Prelude.Dict.{get}
use hymer_connect_ha.Pia.Wire.{Floats}
use hymer_connect_ha.Pia.Slots.{
  SlotValue, text, integer, flag, real, KnownSlots, decode_pia_slots, decode_pia_slots_bytes,
}
use hymer_connect_ha.Pia.Envelopes.{ResponseMessage, decode_transport_response}
use hymer_connect_ha.SignalR.{
  pia_failed, Outcome, result, exception, done, settle_undone, Pending, Client,
  schedule_standby_wake_refresh, schedule_standby_entry_refresh, schedule_token_refresh_retry,
  forget, settle_response,
}
use hymer_connect_ha.Prelude.Text.{text_eq}
use hymer_connect_ha.SignalR.Json.{
  Json, null, bool, num, other_number, str, arr, obj, cons, Fields, member, is_num, is_truthy,
  number_of,
}

-- "OFF", "OK", "SUCCESS", "ACCEPTED" and "PiaResponse"
abbrev pub off_text : List ℕ
off_text = 0x4f ∷ 0x46 ∷ 0x46 ∷ []

abbrev pub ok_text : List ℕ
ok_text = 0x4f ∷ 0x4b ∷ []

abbrev pub success_text : List ℕ
success_text = 0x53 ∷ 0x55 ∷ 0x43 ∷ 0x43 ∷ 0x45 ∷ 0x53 ∷ 0x53 ∷ []

abbrev pub accepted_text : List ℕ
accepted_text = 0x41 ∷ 0x43 ∷ 0x43 ∷ 0x45 ∷ 0x50 ∷ 0x54 ∷ 0x45 ∷ 0x44 ∷ []

abbrev pub pia_response_text : List ℕ
pia_response_text = 0x50 ∷ 0x69 ∷ 0x61 ∷ 0x52 ∷ 0x65 ∷ 0x73 ∷ 0x70 ∷ 0x6f ∷ 0x6e ∷ 0x73 ∷ 0x65 ∷ []

-- Whether a status text stands for success; a list or an object cannot be hashed, and raises.
unfoldable pub status_success : Option Json → Option Bool
status_success none = some false
status_success (some (str s)) =
    some (text_eq s ok_text || text_eq s success_text || text_eq s accepted_text)
status_success (some null) = some false
status_success (some (bool b)) = some false
status_success (some (num n)) = some false
status_success (some other_number) = some false
status_success (some (arr items)) = none
status_success (some (obj fields)) = none

-- `response.get("status", …)`: a response that is no object raises.
unfoldable pub response_success : Option Json → Option Bool
response_success none = some false
response_success (some (obj fields)) = status_success (member "status" fields)
response_success (some null) = none
response_success (some (bool b)) = none
response_success (some (num n)) = none
response_success (some other_number) = none
response_success (some (str s)) = none
response_success (some (arr items)) = none

-- A result that is no object counts as an empty one.
unfoldable pub result_success : Option Json → Option Bool
result_success none = some false
result_success (some (obj fields)) = response_success (member "response" fields)
result_success (some null) = some false
result_success (some (bool b)) = some false
result_success (some (num n)) = some false
result_success (some other_number) = some false
result_success (some (str s)) = some false
result_success (some (arr items)) = some false

-- `_completion_success`; none where it raises.
unfoldable pub completion_success : Fields → Option Bool
completion_success msg = elim (member "error" msg) as (λ _. Option Bool) [
  | none ↦ result_success (member "result" msg)
  | some e ↦ if is_truthy e then some false else result_success (member "result" msg)
]

-- `args[0] if isinstance(args[0], str) else ""`, where `args` is there and not empty; else "".
unfoldable pub payload_argument : Option Json → List ℕ
payload_argument (some (arr (cons (str s) items))) = s
payload_argument (some (arr (cons v items))) = []
payload_argument (some (str (c ∷ chars))) = c ∷ []
payload_argument other = []

unfoldable pub is_pia_response : Option Json → Bool
is_pia_response (some (str s)) = text_eq s pia_response_text
is_pia_response other = false

-- The outcome of a pending request by the status of its response.
unfoldable pub outcome_of : ResponseMessage → Outcome ResponseMessage
outcome_of response =
    if response.status == 1
    then result response
    else exception (pia_failed response.status response.request_id)

module _ {Value : Type 0} where
  -- `self._slot_data.get(slot)`
  unfoldable pub slot_value : ℕ → ℕ → List ((ℕ × ℕ) × Value) → Option Value
  slot_value bus sid [] = none
  slot_value bus sid (((b, s), v) ∷ slots) =
      if b == bus && s == sid then some v else slot_value bus sid slots

  unfoldable pub put_value : ℕ → ℕ → Value → List ((ℕ × ℕ) × Value) → List ((ℕ × ℕ) × Value)
  put_value bus sid v [] = ((bus, sid), v) ∷ []
  put_value bus sid v (((b, s), w) ∷ slots) =
      if b == bus && s == sid then ((b, s), v) ∷ slots else ((b, s), w) ∷ put_value bus sid v slots

  -- `self._slot_data.update(slot_data)`
  unfoldable pub update : List ((ℕ × ℕ) × Value) → List ((ℕ × ℕ) × Value) → List ((ℕ × ℕ) × Value)
  update slots [] = slots
  update slots (((b, s), v) ∷ news) = update (put_value b s v slots) news

  -- A completion settles the future of its invocation, if one waits.
  unfoldable pub complete : Option ℕ → Bool → Client Value → Client Value
  complete none success c = c
  complete (some id) success c = elim (get id c.completion_futures) as (λ _. Client Value) [
    | none ↦ c
    | some r ↦ record c { completions = settle_undone r (result success) c.completions }
  ]

  unfoldable pub handle_completion : Fields → Client Value → Client Value
  handle_completion msg c = elim (completion_success msg) as (λ _. Client Value) [
    | none ↦ c
    | some success ↦ complete (number_of (member "invocationId" msg)) success c
  ]

  unfoldable pub answer_pending : ResponseMessage → Option Pending → Client Value → Client Value
  answer_pending response none c = c
  answer_pending response (some p) c =
      if done (c.responses.outcome p.future)
      then c
      else forget response.request_id (settle_response p.future (outcome_of response) c)

  unfoldable pub answer : Option ResponseMessage → Client Value → Client Value
  answer none c = c
  answer (some response) c = answer_pending response (get response.request_id c.pending_requests) c

-- `status in {STATUS_AUTH_TOKEN_EXPIRED, STATUS_REMOTE_TOKEN_EXPIRED}`
unfoldable pub reports_expiry : Option ResponseMessage → Bool
reports_expiry none = false
reports_expiry (some response) = response.status == 12 || response.status == 13

module _ {Value : Type 0} (is_standby_value : Value → Bool) (main_switch_slots : List (ℕ × ℕ))
    (now : ℕ) where
  unfoldable pub any_standby : List (ℕ × ℕ) → List ((ℕ × ℕ) × Value) → Bool
  any_standby [] slots = false
  any_standby ((bus, sid) ∷ keys) slots =
      elim (slot_value bus sid slots) as (λ _. Bool) [ none ↦ false | some v ↦ is_standby_value v ]
      || any_standby keys slots

  unfoldable pub is_vehicle_standby : Client Value → Bool
  is_vehicle_standby c = any_standby main_switch_slots c.slot_data

  -- What is done as the vehicle falls asleep or wakes.
  unfoldable pub follow_standby : (was_standby is_standby : Bool) → Client Value → Client Value
  follow_standby true false c = schedule_standby_wake_refresh (record c { scu_standby_since = 0 })
  follow_standby false true c =
      schedule_standby_entry_refresh (record c { scu_standby_since = now })
  follow_standby true true c = c
  follow_standby false false c = c

  unfoldable pub apply_slots : List ((ℕ × ℕ) × Value) → Client Value → Client Value
  apply_slots slots c =
      let c' = record c { slot_data = update c.slot_data slots } in
      follow_standby (is_vehicle_standby c) (is_vehicle_standby c') c'

  -- The slots are stored and published, and then the request is answered.
  unfoldable pub store_and_answer :
      (publish : List ((ℕ × ℕ) × Value) → Bool)
      → List ((ℕ × ℕ) × Value)
      → Option ResponseMessage
      → Client Value
      → Client Value
  store_and_answer publish [] response c = answer response c
  store_and_answer publish (slot ∷ slots) response c =
      let c' = apply_slots (slot ∷ slots) c in
      if publish (slot ∷ slots) then c' else answer response c'

-- `_is_standby_value`
unfoldable pub is_standby_value :
    (floats : Floats) (is_printable : ℕ → Bool)
    → (List ℕ → List ℕ)
    → SlotValue floats is_printable
    → Bool
is_standby_value floats is_printable upper (text s) = text_eq (upper s) off_text
is_standby_value floats is_printable upper (flag b) = not b
is_standby_value floats is_printable upper (integer n) = false
is_standby_value floats is_printable upper (real x) = false

module _ (floats : Floats) (is_printable : ℕ → Bool) (known : KnownSlots floats is_printable)
    (b64decode : List ℕ → Option (List ℕ)) where
  -- The slots of a response's payload, else those of the whole message.
  unfoldable pub response_slots :
      List ℕ → Option ResponseMessage → List ((ℕ × ℕ) × SlotValue floats is_printable)
  response_slots b64_payload none = decode_pia_slots floats is_printable known b64decode b64_payload
  response_slots b64_payload (some response) =
      elim response.payload as (λ _. List ((ℕ × ℕ) × SlotValue floats is_printable)) [
        | none ↦ decode_pia_slots floats is_printable known b64decode b64_payload
        | some payload ↦ decode_pia_slots_bytes floats is_printable known payload
      ]

  module _ (main_switch_slots : List (ℕ × ℕ)) (upper : List ℕ → List ℕ)
      (publish : List ((ℕ × ℕ) × SlotValue floats is_printable) → Bool) (now : ℕ) where
    unfoldable pub handle_response :
        List ℕ
        → Option ResponseMessage
        → Client (SlotValue floats is_printable)
        → Client (SlotValue floats is_printable)
    handle_response b64_payload none c =
        store_and_answer (is_standby_value floats is_printable upper) main_switch_slots now publish
          (response_slots b64_payload none) none c
    handle_response b64_payload (some response) c =
        if reports_expiry (some response)
        then schedule_token_refresh_retry (some response.request_id) c
        else store_and_answer (is_standby_value floats is_printable upper) main_switch_slots now
            publish (response_slots b64_payload (some response)) (some response) c

    unfoldable pub handle_payload :
        List ℕ → Client (SlotValue floats is_printable) → Client (SlotValue floats is_printable)
    handle_payload [] c = c
    handle_payload (char ∷ chars) c =
        handle_response (char ∷ chars) (decode_transport_response floats b64decode (char ∷ chars)) c

    unfoldable pub handle_message :
        Fields → Client (SlotValue floats is_printable) → Client (SlotValue floats is_printable)
    handle_message msg c =
        if is_num 6 (member "type" msg)
        then c
        else if is_num 3 (member "type" msg)
        then handle_completion msg c
        else if is_pia_response (member "target" msg)
        then handle_payload (payload_argument (member "arguments" msg)) c
        else c
