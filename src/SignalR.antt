-- ===== src/SignalR.antt =====
-- The client of the vehicle data hub, signalr_client.py: its state, and the steps that are taken
-- between two awaits. A future is an address of a heap, since the dict of pending requests and the
-- coroutine that waits share it. The clock is in ticks; a callback of the coordinator is counted.
-- `pending_requests` has a `Pending` by request id; its `sent` is only written through the dict.
pub mod Json
pub mod Messages
pub mod Requests
pub mod Refresh
pub mod Listen
pub mod Core
pub mod Safety
pub mod Interleaving
pub mod Release
pub mod Answer
pub mod Queue
pub mod Burst
pub mod Tracker
pub mod Drain
pub mod Table
use hymer_connect_ha.Prelude.{
  ℕ, ◌+◌, Bool, true, false, not, ◌&&◌, ◌||◌, Option, none, some, List, [], ◌∷◌, ◌++◌, ltb, ◌==◌,
  if◌then◌else◌,
}
use hymer_connect_ha.Prelude.Dict.{Dict, get, put, pop, contains}
use hymer_connect_ha.Pia.Envelopes.{ResponseMessage}

-- HymerConnectApiError, PiaRequestFailedError with its status and request id, and any other.
pub data Failure : Type 0 where
  api_error : Failure
  pia_failed : (status request_id : ℕ) → Failure
  other_error : Failure

-- What a future holds.
pub data Outcome (A : Type 0) : Type 0 where
  waiting : Outcome A
  result : A → Outcome A
  exception : Failure → Outcome A
  cancelled : Outcome A

abbrev pub done : {A : Type 0} → Outcome A → Bool
done waiting = false
done (result a) = true
done (exception e) = true
done cancelled = true

pub record Heap (A : Type 0) : Type 0 where
  pub allocated : ℕ
  pub outcome : ℕ → Outcome A

module _ {A : Type 0} where
  -- `set_result`, `set_exception` and `cancel`
  abbrev pub settle : ℕ → Outcome A → Heap A → Heap A
  settle r o h = record h { outcome = λ i. if r == i then o else h.outcome i }

  -- `if not future.done(): …`
  unfoldable pub settle_undone : ℕ → Outcome A → Heap A → Heap A
  settle_undone r o h = if done (h.outcome r) then h else settle r o h

  -- `create_future()`, which is given the address `h.allocated`
  abbrev pub create_future : Heap A → Heap A
  create_future h = record {
    allocated = h.allocated + 1;
    outcome = λ i. if h.allocated == i then waiting else h.outcome i;
  }

pub data Socket : Type 0 where
  missing live closed : Socket

abbrev pub is_live : Socket → Bool
is_live live = true
is_live missing = false
is_live closed = false

-- A reference to an asyncio task, by its number.
pub data Task : Type 0 where
  idle : Task
  active finished : ℕ → Task

abbrev pub in_flight : Task → Bool
in_flight (active n) = true
in_flight idle = false
in_flight (finished n) = false

-- The reference once the task `n` has finished.
abbrev pub clear_task : ℕ → Task → Task
clear_task n idle = idle
clear_task n (active m) = if m == n then idle else active m
clear_task n (finished m) = if m == n then idle else finished m

pub record Pending : Type 0 where
  pub payload : List ℕ
  pub future : ℕ
  pub sent : Bool

pub record Client (Value : Type 0) : Type 0 where
  pub has_refresh_token : Bool
  pub has_vehicle : Bool
  pub ws : Socket
  pub running : Bool
  pub is_connected : Bool
  pub slot_data : List ((ℕ × ℕ) × Value)
  pub scu_standby_since : ℕ
  pub connection_lost_notified : Bool
  pub next_invocation_id : ℕ
  pub completion_futures : Dict ℕ
  pub completions : Heap Bool
  pub pending_requests : Dict Pending
  pub responses : Heap ResponseMessage
  pub waiting_request_ids : List ℕ
  pub token_refresh_task : Task
  pub standby_wake_refresh_task : Task
  pub standby_entry_refresh_task : Task
  pub tasks : ℕ  -- created so far
  pub losses : ℕ  -- calls of on_connection_lost so far
  pub written : List (List ℕ)  -- the PiaRequest payloads on the wire, newest first

-- What the other tasks do while a message is written, and what the write raises.
pub record Write (Value : Type 0) : Type 0 where
  pub meanwhile : Client Value → Client Value
  pub write_error : Option Failure

-- What a coroutine ends with: a value, an exception, or CancelledError.
pub data Reply : Type 0 where
  returned : Bool → Reply
  raised : Failure → Reply
  was_cancelled : Reply

module _ {Value : Type 0} where
  -- `self.connected`
  unfoldable pub connected : Client Value → Bool
  connected c = c.is_connected && is_live c.ws

  unfoldable pub notify_connection_lost : Client Value → Client Value
  notify_connection_lost c =
      if c.connection_lost_notified
      then c
      else record c { connection_lost_notified = true; losses = c.losses + 1 }

  -- What each failed write or refresh does.
  unfoldable pub lose_connection : Client Value → Client Value
  unfolding notify_connection_lost
  lose_connection c = notify_connection_lost (record c { is_connected = false })

  unfoldable pub mark_disconnected : Client Value → Client Value
  mark_disconnected c = record c { is_connected = false }

  -- The end of `connect`, once the handshake was answered on a new socket.
  unfoldable pub connect : Client Value → Client Value
  connect c = record c { ws = live; is_connected = true; connection_lost_notified = false }

  unfoldable pub refresh_in_flight : Client Value → Bool
  refresh_in_flight c =
      in_flight c.token_refresh_task
      || in_flight c.standby_wake_refresh_task
      || in_flight c.standby_entry_refresh_task

  unfoldable pub schedule_standby_wake_refresh : Client Value → Client Value
  schedule_standby_wake_refresh c =
      if in_flight c.standby_wake_refresh_task
      then c
      else record c { standby_wake_refresh_task = active c.tasks; tasks = c.tasks + 1 }

  unfoldable pub schedule_standby_entry_refresh : Client Value → Client Value
  schedule_standby_entry_refresh c =
      if in_flight c.standby_entry_refresh_task
      then c
      else record c { standby_entry_refresh_task = active c.tasks; tasks = c.tasks + 1 }

  unfoldable pub clear_token_refresh_task : ℕ → Client Value → Client Value
  clear_token_refresh_task n c = record c { token_refresh_task = clear_task n c.token_refresh_task }

  unfoldable pub clear_standby_wake_refresh_task : ℕ → Client Value → Client Value
  clear_standby_wake_refresh_task n c = record c {
    standby_wake_refresh_task = clear_task n c.standby_wake_refresh_task;
  }

  unfoldable pub clear_standby_entry_refresh_task : ℕ → Client Value → Client Value
  clear_standby_entry_refresh_task n c = record c {
    standby_entry_refresh_task = clear_task n c.standby_entry_refresh_task;
  }

  -- `if request_id not in self._waiting_request_ids: … append(request_id)`
  unfoldable pub enqueue : ℕ → Client Value → Client Value
  enqueue id c =
      if contains id c.waiting_request_ids
      then c
      else record c { waiting_request_ids = c.waiting_request_ids ++ (id ∷ []) }

  -- A refresh is asked for by a status; `request_id` is none where the response has no id.
  unfoldable pub schedule_token_refresh_retry : Option ℕ → Client Value → Client Value
  schedule_token_refresh_retry request_id c =
      let c' = elim request_id as (λ _. Client Value) [ none ↦ c | some id ↦ enqueue id c ] in
      if in_flight c'.token_refresh_task
      then c'
      else record c' { token_refresh_task = active c'.tasks; tasks = c'.tasks + 1 }

  -- What is done with the id that an answered or failed request had.
  unfoldable pub forget : ℕ → Client Value → Client Value
  forget id c = record c { pending_requests = pop id c.pending_requests }

  unfoldable pub settle_response : ℕ → Outcome ResponseMessage → Client Value → Client Value
  settle_response r o c = record c { responses = settle r o c.responses }

  -- `pending.sent = True`, where the request is still pending
  unfoldable pub mark_sent : ℕ → Client Value → Client Value
  mark_sent id c = elim (get id c.pending_requests) as (λ _. Client Value) [
    | none ↦ c
    | some p ↦ record c { pending_requests = put id (record p { sent = true }) c.pending_requests }
  ]

  -- The end of a write.
  unfoldable pub after_write :
      ℕ → List ℕ → Option Failure → Client Value → Option Failure × Client Value
  after_write id payload none c = (none, mark_sent id (record c { written = payload ∷ c.written }))
  after_write id payload (some e) c = (some e, c)

  unfoldable pub send_request_payload :
      ℕ → List ℕ → Write Value → Client Value → Option Failure × Client Value
  send_request_payload id payload write c =
      if is_live c.ws
      then after_write id payload write.write_error (write.meanwhile c)
      else (some api_error, c)
