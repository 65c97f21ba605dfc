-- ===== src/SignalR/Refresh.antt =====
-- The refresh of the session's tokens, signalr_client.py: UpdateTokens, the replay of the requests that
-- were queued meanwhile, and the refreshes as the vehicle falls asleep or wakes.
use hymer_connect_ha.Prelude.{
  not, ℕ, zero, suc, ◌+◌, Bool, true, false, ◌&&◌, Option, none, some, List, [], ◌∷◌, ◌==◌,
  if◌then◌else◌,
}
use hymer_connect_ha.Prelude.Int.{ℤ}
use hymer_connect_ha.Prelude.Dict.{get, put, pop}
use hymer_connect_ha.Pia.Wire.{Floats}
use hymer_connect_ha.Pia.Envelopes.{extract_request_id_from_payload}
use hymer_connect_ha.Pia.Requests.{build_refresh_command}
use hymer_connect_ha.SignalR.{
  Failure, api_error, pia_failed, other_error, Outcome, waiting, result, exception, cancelled, done,
  settle, settle_undone, create_future, Socket, missing, live, closed, Pending, Client, Write,
  Reply, returned, raised, was_cancelled, connected, lose_connection, forget, refresh_in_flight,
  send_request_payload,
}
use hymer_connect_ha.SignalR.Requests.{Wait, Send, send_initial_subscriptions}

-- The exchange of the refresh token, and the invocation that follows.
pub record TokenUpdate (Value : Type 0) : Type 0 where
  pub meanwhile : Client Value → Client Value
  pub exchange_error : Option Failure
  pub write : Write Value
  pub wait : Wait Value

abbrev pub is_missing : Socket → Bool
is_missing missing = true
is_missing live = false
is_missing closed = false

-- `except HymerConnectApiError`, of which PiaRequestFailedError is a kind
unfoldable pub exchange_reply : Failure → Reply
exchange_reply api_error = returned false
exchange_reply (pia_failed status id) = returned false
exchange_reply other_error = raised other_error

-- `list(dict.fromkeys(ids))`
unfoldable pub without : ℕ → List ℕ → List ℕ
without k [] = []
without k (j ∷ ks) = let rest = without k ks in if j == k then rest else j ∷ rest

unfoldable pub dedupe : List ℕ → List ℕ
dedupe [] = []
dedupe (k ∷ ks) = k ∷ without k (dedupe ks)

module _ {Value : Type 0} where
  unfoldable pub settle_completion : ℕ → Outcome Bool → Client Value → Client Value
  settle_completion r o c = record c { completions = settle r o c.completions }

  unfoldable pub forget_completion : ℕ → Client Value → Client Value
  forget_completion id c = record c { completion_futures = pop id c.completion_futures }

  -- The end of the wait for the completion; the invocation is forgotten in every case.
  unfoldable pub resume_completion :
      ℕ → ℕ → (Client Value → Client Value) → Outcome Bool → Client Value → Reply × Client Value
  resume_completion id r after_timeout waiting c =
      (returned false, forget_completion id (after_timeout (settle_completion r cancelled c)))
  resume_completion id r after_timeout (result success) c =
      (returned success, forget_completion id c)
  resume_completion id r after_timeout (exception e) c = (raised e, forget_completion id c)
  resume_completion id r after_timeout cancelled c = (was_cancelled, forget_completion id c)

  -- The invocation takes the next id and, where its completion is awaited, a new future.
  unfoldable pub register_invocation : Bool → Client Value → Client Value
  register_invocation false c = record c { next_invocation_id = c.next_invocation_id + 1 }
  register_invocation true c = record c {
    next_invocation_id = c.next_invocation_id + 1;
    completions = create_future c.completions;
    completion_futures =
        put (c.next_invocation_id + 1) c.completions.allocated c.completion_futures;
  }

  -- What follows the write of the invocation `id`, whose future is `r`.
  unfoldable pub await_completion :
      Bool → ℕ → ℕ → Wait Value → Option Failure → Client Value → Reply × Client Value
  await_completion wait_response id r wait (some e) c = (raised e, c)
  await_completion false id r wait none c = (returned true, c)
  await_completion true id r wait none c =
      let c' = wait.meanwhile c in
      resume_completion id r wait.after_timeout (c'.completions.outcome r) c'

  -- The socket may have gone during the exchange, and then the write raises AttributeError.
  unfoldable pub invoke_update_tokens :
      Bool → TokenUpdate Value → Client Value → Reply × Client Value
  invoke_update_tokens wait_response t c =
      let c' = register_invocation wait_response c in
      if is_missing c'.ws
      then (raised other_error, c')
      else await_completion wait_response (c.next_invocation_id + 1) c.completions.allocated t.wait
          t.write.write_error (t.write.meanwhile c')

  unfoldable pub after_exchange :
      Bool → TokenUpdate Value → Option Failure → Client Value → Reply × Client Value
  after_exchange wait_response t (some e) c = (exchange_reply e, c)
  after_exchange wait_response t none c = invoke_update_tokens wait_response t c

  unfoldable pub send_update_tokens : Bool → TokenUpdate Value → Client Value → Reply × Client Value
  send_update_tokens wait_response t c =
      if not (is_missing c.ws) && c.has_refresh_token && c.has_vehicle
      then after_exchange wait_response t t.exchange_error (t.meanwhile c)
      else (returned false, c)

  -- A queued request that is still pending is written; if that fails, it is settled and forgotten.
  unfoldable pub after_replay : ℕ → ℕ → Option Failure × Client Value → Client Value
  after_replay id r (none, c) = c
  after_replay id r (some e, c) =
      forget id (record c { responses = settle_undone r (exception e) c.responses })

  unfoldable pub replay : ℕ → Option Pending → Write Value → Client Value → Client Value
  replay id none write c = c
  replay id (some p) write c =
      if done (c.responses.outcome p.future)
      then c
      else after_replay id p.future (send_request_payload id p.payload write c)

  unfoldable pub replay_all : (ℕ → Write Value) → List ℕ → Client Value → Client Value
  replay_all writes [] c = c
  replay_all writes (id ∷ ids) c =
      replay_all writes ids (replay id (get id c.pending_requests) (writes id) c)

  -- The loop of `_retry_waiting_requests`: `rounds` is fuel, and a round's writes are by request id.
  unfoldable pub retry_waiting_requests : ℕ → (ℕ → ℕ → Write Value) → Client Value → Client Value
  retry_waiting_requests zero writes c = c
  retry_waiting_requests (suc rounds) writes c =
      elim (dedupe c.waiting_request_ids) as (λ _. Client Value) [
        | [] ↦ record c { waiting_request_ids = [] }
        | id ∷ ids ↦
            retry_waiting_requests rounds writes
              (replay_all (writes rounds) (id ∷ ids) (record c { waiting_request_ids = [] }))
      ]

  -- The failure of a refresh settles every queued request that is pending, and forgets it.
  unfoldable pub fail_request : Failure → ℕ → Option Pending → Client Value → Client Value
  fail_request e id none c = c
  fail_request e id (some p) c = record c {
    pending_requests = pop id c.pending_requests;
    responses = settle_undone p.future (exception e) c.responses;
  }

  unfoldable pub fail_requests : Failure → List ℕ → Client Value → Client Value
  fail_requests e [] c = c
  fail_requests e (id ∷ ids) c =
      fail_requests e ids (fail_request e id (get id c.pending_requests) c)

  unfoldable pub fail_waiting_requests : Failure → Client Value → Client Value
  fail_waiting_requests e c =
      fail_requests e (dedupe c.waiting_request_ids) (record c { waiting_request_ids = [] })

-- A refresh: the login where the status asks for it, the update, and the rounds of the replay.
pub record TokenRefresh (Value : Type 0) : Type 0 where
  pub meanwhile : Client Value → Client Value
  pub login_error : Option Failure
  pub update : TokenUpdate Value
  pub rounds : ℕ
  pub writes : ℕ → ℕ → Write Value

module _ {Value : Type 0} where
  unfoldable pub after_update : TokenRefresh Value → Reply × Client Value → Reply × Client Value
  after_update t (returned true, c) = (returned true, retry_waiting_requests t.rounds t.writes c)
  after_update t (returned false, c) = (raised api_error, fail_waiting_requests api_error c)
  after_update t (raised e, c) = (raised e, fail_waiting_requests e c)
  after_update t (was_cancelled, c) = (was_cancelled, c)

  unfoldable pub after_login :
      TokenRefresh Value → Option Failure → Client Value → Reply × Client Value
  after_login t (some e) c = (raised e, fail_waiting_requests e c)
  after_login t none c = after_update t (send_update_tokens true t.update c)

  -- `_refresh_and_retry`, for the status that asked for it.
  unfoldable pub refresh_and_retry : ℕ → TokenRefresh Value → Client Value → Reply × Client Value
  refresh_and_retry status t c =
      if status == 12 then after_login t t.login_error (t.meanwhile c) else after_login t none c

  -- A refresh that fails gives the connection up.
  unfoldable pub or_lose : Reply × Client Value → Reply × Client Value
  or_lose (returned true, c) = (returned true, c)
  or_lose (returned false, c) = (returned true, lose_connection c)
  or_lose (raised e, c) = (returned true, lose_connection c)
  or_lose (was_cancelled, c) = (was_cancelled, c)

  -- `asleep` is what the other tasks do during the first sleep.
  unfoldable pub run_standby_entry_refresh :
      (asleep : Client Value → Client Value)
      → TokenUpdate Value
      → Client Value
      → Reply × Client Value
  run_standby_entry_refresh asleep t c =
      let c' = asleep c in
      if connected c' then or_lose (send_update_tokens true t c') else (returned true, c')

  -- A keepalive poll whose write fails gives the connection up; nothing is raised.
  unfoldable pub after_poll : Option Failure × Client Value → Client Value
  after_poll (none, c) = c
  after_poll (some e, c) = lose_connection c

  unfoldable pub poll : Option ℕ → List ℕ → Write Value → Client Value → Client Value
  poll none payload write c = c
  poll (some id) payload write c = after_poll (send_request_payload id payload write c)

  module _ (floats : Floats) (b64decode : List ℕ → Option (List ℕ)) where
    unfoldable pub resubscribe :
        (Client Value → Client Value)
        → (ℕ → Send Value)
        → List (List ℕ)
        → Reply × Client Value
        → Reply × Client Value
    resubscribe settled sends payloads (returned true, c) =
        let c' = settled c in
        if connected c'
        then send_initial_subscriptions floats b64decode sends payloads c'
        else (returned true, c')
    resubscribe settled sends payloads (returned false, c) = (raised api_error, c)
    resubscribe settled sends payloads (raised e, c) = (raised e, c)
    resubscribe settled sends payloads (was_cancelled, c) = (was_cancelled, c)

    unfoldable pub run_standby_wake_refresh :
        (asleep settled : Client Value → Client Value)
        → TokenUpdate Value
        → (ℕ → Send Value)
        → List (List ℕ)
        → Client Value
        → Reply × Client Value
    run_standby_wake_refresh asleep settled t sends payloads c =
        let c' = asleep c in
        if connected c'
        then or_lose (resubscribe settled sends payloads (send_update_tokens true t c'))
        else (returned true, c')

    -- Nothing is polled while the client is not connected, refreshes its tokens, or sleeps.
    unfoldable pub send_refresh :
        (b64encode : List ℕ → List ℕ)
        → (keepalive_id drawn now : ℤ) → Write Value
        → Client Value
        → Client Value
    send_refresh b64encode keepalive_id drawn now write c =
        let payload = build_refresh_command b64encode keepalive_id drawn now in
        if connected c && not (refresh_in_flight c) && c.scu_standby_since == 0
        then poll (extract_request_id_from_payload floats b64decode payload) payload write c
        else c
