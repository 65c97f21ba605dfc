-- ===== src/Tests/Hub.antt =====
-- The client of the data hub at small states: one request pending, one queued. A slot value is a number
-- where it does not matter; base64 leaves the bytes as they are.
use hymer_connect_ha.Prelude.{
  inl, ◌==◌, if◌then◌else◌, ℕ, ◌≡◌, ◌≢◌, refl, arith, true, false, Option, none, some, List, [],
  ◌∷◌,
}
use hymer_connect_ha.Prelude.Dict.{get}
use hymer_connect_ha.Pia.Slots.{SlotValue}
use hymer_connect_ha.Pia.Envelopes.{ResponseMessage}
use hymer_connect_ha.SignalR.{
  pia_failed, api_error, waiting, result, exception, live, missing, idle, Client, Write, Reply,
  was_cancelled, connect,
}
use hymer_connect_ha.SignalR.Messages.{reports_expiry, handle_response}
use hymer_connect_ha.SignalR.Requests.{Wait, Send, send_pia_request, send_initial_subscriptions}
use hymer_connect_ha.SignalR.Refresh.{
  TokenRefresh, refresh_and_retry, after_login, after_update, send_update_tokens,
  fail_waiting_requests,
}
use hymer_connect_ha.SignalR.Listen.{Ending, Endings, cancel_tasks, cleanup}
use hymer_connect_ha.SignalR.Core.{core, Inv, Kept}
use hymer_connect_ha.SignalR.Interleaving
use hymer_connect_ha.SignalR.Interleaving.{rest, follow, connects, requests, sending}
use hymer_connect_ha.SignalR.Release
use hymer_connect_ha.SignalR.Answer
use hymer_connect_ha.SignalR.Queue
use hymer_connect_ha.SignalR.Drain
use hymer_connect_ha.SignalR.Burst
use hymer_connect_ha.SignalR.Tracker
use hymer_connect_ha.Tests.Slots.{byte_floats, prints}

-- Request 7 waits for a response, and the queue is given.
abbrev pub hub : {Value : Type 0} → List ℕ → Client Value
hub queue = record {
  has_refresh_token = true;
  has_vehicle = true;
  ws = live;
  running = true;
  is_connected = true;
  slot_data = [];
  scu_standby_since = 0;
  connection_lost_notified = false;
  next_invocation_id = 0;
  completion_futures = [];
  completions = record { allocated = 0; outcome = λ i. waiting };
  pending_requests = (7, record { payload = 8 ∷ 7 ∷ 24 ∷ 1 ∷ []; future = 0; sent = true }) ∷ [];
  responses = record { allocated = 1; outcome = λ i. waiting };
  waiting_request_ids = queue;
  token_refresh_task = idle;
  standby_wake_refresh_task = idle;
  standby_entry_refresh_task = idle;
  tasks = 0;
  losses = 0;
  written = [];
}

hub-Inv : (Value : Type 0) (queue : List ℕ) → Inv (core (hub {Value = Value} queue))
unfolding get
hub-Inv Value queue = record {
  pending_below = λ i p e. ground arith;
  apart = λ i j p q a b e. ground arith;
  completions_below = λ i r e. cc;
}

-- A write that succeeds and a wait that times out, with no other task.
abbrev calm_write : {Value : Type 0} → Write Value
calm_write = record { meanwhile = λ c. c; write_error = none }

abbrev calm_wait : {Value : Type 0} → Wait Value
calm_wait = record { meanwhile = λ c. c; after_timeout = λ c. c }

abbrev pub calm_send : {Value : Type 0} → Send Value
calm_send = record { write = calm_write; wait = calm_wait }

abbrev quiet_ending : {Value : Type 0} → Ending Value
quiet_ending = record { meanwhile = λ c. c; task_error = none }

abbrev quiet_endings : {Value : Type 0} → Endings Value
quiet_endings = record {
  token_refresh = quiet_ending;
  standby_wake = quiet_ending;
  standby_entry = quiet_ending;
}

abbrev pub plain : List ℕ → Option (List ℕ)
plain bytes = some bytes

abbrev slot_hub :
    Interleaving.SlotClient byte_floats prints none
      (λ b. b)
      plain
      []
      (λ t. t)
      (λ c. false)
      (λ t. none)
      (λ s. false)
      5
slot_hub = hub []

-- A client that connects and then sends request 7 once more.
abbrev reconnect_and_send :
    Interleaving.SlotClient byte_floats prints none
      (λ b. b)
      plain
      []
      (λ t. t)
      (λ c. false)
      (λ t. none)
      (λ s. false)
      5
    → Interleaving.SlotClient byte_floats prints none
        (λ b. b)
        plain
        []
        (λ t. t)
        (λ c. false)
        (λ t. none)
        (λ s. false)
        5
reconnect_and_send c =
    (send_pia_request byte_floats plain (8 ∷ 7 ∷ 24 ∷ 1 ∷ []) calm_send (connect c)).1

Acts-Inv_example :
    Inv (core (reconnect_and_send slot_hub))
    × Kept slot_hub.responses (reconnect_and_send slot_hub).responses
    × Kept slot_hub.completions (reconnect_and_send slot_hub).completions
Acts-Inv_example =
    Interleaving.Acts-Inv byte_floats prints none (λ b. b) plain [] (λ t. t) (λ c. false)
      (λ t. none) (λ s. false) 5 reconnect_and_send
      (follow connects (requests (8 ∷ 7 ∷ 24 ∷ 1 ∷ []) calm_send (sending rest rest rest))) slot_hub
      (hub-Inv (SlotValue byte_floats prints) [])

Inv-Refines_example : Tracker.Refines (hub {Value = ℕ} (7 ∷ []))
Inv-Refines_example = Tracker.Inv-Refines (hub (7 ∷ [])) (hub-Inv ℕ (7 ∷ []))

abbrev accepted : ResponseMessage
accepted = record { request_id = 7; status = 1; timestamp = none; payload = none }

abbrev expired : ResponseMessage
expired = record { request_id = 7; status = 12; timestamp = none; payload = none }

not_expired : reports_expiry (some accepted) ≡ false
unfolding reports_expiry
not_expired = refl

seven_pending :
    get 7 slot_hub.pending_requests
    ≡ some (record { payload = 8 ∷ 7 ∷ 24 ∷ 1 ∷ []; future = 0; sent = true })
unfolding get
seven_pending = refl

handle_response-IsAnswered_example :
    Answer.IsAnswered 7
      (record { payload = 8 ∷ 7 ∷ 24 ∷ 1 ∷ []; future = 0; sent = true })
      (if accepted.status == 1 then result accepted else exception (pia_failed 1 7))
      slot_hub
      (handle_response byte_floats prints none plain []
        (λ t. t)
        (λ s. false)
        5
        (8 ∷ 7 ∷ [])
        (some accepted)
        slot_hub)
handle_response-IsAnswered_example =
    Answer.handle_response-IsAnswered byte_floats prints none plain [] (λ t. t) (λ s. false) 5
      (8 ∷ 7 ∷ []) accepted (record { payload = 8 ∷ 7 ∷ 24 ∷ 1 ∷ []; future = 0; sent = true })
      slot_hub not_expired refl (hub-Inv (SlotValue byte_floats prints) []) seven_pending refl

handle_response-IsQueued_example :
    Answer.IsQueued byte_floats prints none plain []
      (λ t. t)
      (λ s. false)
      5
      7
      slot_hub
      (handle_response byte_floats prints none plain []
        (λ t. t)
        (λ s. false)
        5
        (8 ∷ 7 ∷ [])
        (some expired)
        slot_hub)
handle_response-IsQueued_example =
    Answer.handle_response-IsQueued byte_floats prints none plain [] (λ t. t) (λ s. false) 5
      (8 ∷ 7 ∷ []) expired slot_hub (inl refl)

cleanup-IsReleased_example :
    ((cleanup quiet_endings (hub {Value = ℕ} (7 ∷ []))).0 ≡ none)
    × Release.IsReleased
        (cancel_tasks quiet_endings
          (record (hub {Value = ℕ} (7 ∷ [])) { is_connected = false; running = false })).1
        (cleanup quiet_endings (hub {Value = ℕ} (7 ∷ []))).1
cleanup-IsReleased_example =
    Release.cleanup-IsReleased quiet_endings (hub {Value = ℕ} (7 ∷ []))
      (record { token_refresh = refl; standby_wake = refl; standby_entry = refl })

fail_waiting_requests-IsFailed_example :
    Queue.IsFailed api_error
      (hub {Value = ℕ} (7 ∷ []))
      (fail_waiting_requests api_error (hub {Value = ℕ} (7 ∷ [])))
fail_waiting_requests-IsFailed_example =
    Queue.fail_waiting_requests-IsFailed api_error (hub {Value = ℕ} (7 ∷ []))

-- A refresh whose token exchange is refused.
abbrev refused_refresh : TokenRefresh ℕ
refused_refresh = record {
  meanwhile = λ c. c;
  login_error = none;
  update = record {
    meanwhile = λ c. c;
    exchange_error = some api_error;
    write = calm_write;
    wait = calm_wait;
  };
  rounds = 2;
  writes = λ round id. calm_write;
}

abbrev lost_hub : Client ℕ
lost_hub = record (hub (7 ∷ [])) { ws = missing }

ends : (refresh_and_retry 13 refused_refresh lost_hub).0 ≢ was_cancelled
unfolding refresh_and_retry after_login after_update send_update_tokens
ends e = cc

refresh_and_retry-empty_example :
    (refresh_and_retry 13 refused_refresh lost_hub).1.waiting_request_ids ≡ []
refresh_and_retry-empty_example =
    Drain.refresh_and_retry-empty refused_refresh 0 refl (λ round id c. refl) 13 lost_hub ends

send_initial_subscriptions-Run_example :
    (replies : List Reply) × (stop : Option Reply) × Burst.Run byte_floats plain
      (λ n. calm_send)
      0
      ((8 ∷ 7 ∷ 24 ∷ 1 ∷ []) ∷ [])
      (hub {Value = ℕ} [])
      replies
      stop
      (send_initial_subscriptions byte_floats plain
        (λ n. calm_send)
        ((8 ∷ 7 ∷ 24 ∷ 1 ∷ []) ∷ [])
        (hub [])).1
    × ((send_initial_subscriptions byte_floats plain
          (λ n. calm_send)
          ((8 ∷ 7 ∷ 24 ∷ 1 ∷ []) ∷ [])
          (hub {Value = ℕ} [])).0
        ≡ Burst.verdict byte_floats plain
            (λ (n : ℕ). calm_send {Value = ℕ})
            (Burst.answers replies)
            stop)
send_initial_subscriptions-Run_example =
    Burst.send_initial_subscriptions-Run byte_floats plain (λ n. calm_send)
      ((8 ∷ 7 ∷ 24 ∷ 1 ∷ []) ∷ []) (hub [])
