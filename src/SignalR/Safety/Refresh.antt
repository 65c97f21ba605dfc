-- ===== src/SignalR/Safety/Refresh.antt =====
-- The refreshes of signalr_client.py are safe, if the other tasks are.
use hymer_connect_ha.Prelude.{
  ℕ, zero, suc, true, false, Option, none, some, List, [], ◌∷◌, refl, ◌==◌,
}
use hymer_connect_ha.Prelude.Int.{ℤ}
use hymer_connect_ha.Prelude.Dict.{pop, get}
use hymer_connect_ha.Pia.Wire.{Floats}
use hymer_connect_ha.SignalR.{
  Failure, api_error, exception, done, Pending, Client, Write, Reply, returned, raised,
  was_cancelled, connected, settle_undone,
}
use hymer_connect_ha.SignalR.Requests.{Send, send_initial_subscriptions}
use hymer_connect_ha.SignalR.Refresh.{
  TokenUpdate, TokenRefresh, dedupe, after_replay, replay, replay_all, retry_waiting_requests,
  fail_request, fail_requests, fail_waiting_requests, after_update, after_login, refresh_and_retry,
  or_lose, run_standby_entry_refresh, resubscribe, run_standby_wake_refresh, after_poll, poll,
  send_refresh,
}
use hymer_connect_ha.SignalR.Core.{core, Fine-trans, pop-Fine, responses-Fine, settle_undone-Kept}
use hymer_connect_ha.SignalR.Safety.{
  Safe, IsSafe, Safe-refl, Safe-trans, Safe-core, Safe-if, Safe-if_snd, lose_connection-Safe,
  forget-Safe, send_request_payload-Safe,
}
use hymer_connect_ha.SignalR.Safety.Requests.{SendIsSafe, subscribe_from-Safe}
use hymer_connect_ha.SignalR.Safety.Update.{RefreshIsSafe, UpdateIsSafe, send_update_tokens-Safe}

module _ {Value : Type 0} where
  after_replay-Safe :
      (id r : ℕ) (sent : Option Failure × Client Value) → Safe sent.1 (after_replay id r sent)
  unfolding after_replay
  after_replay-Safe id r (none, c) = Safe-refl c
  after_replay-Safe id r (some e, c) =
      Safe-trans {d = record c { responses = settle_undone r (exception e) c.responses }}
        (record {
          fine = responses-Fine (core c) _ (settle_undone-Kept r (exception e) c.responses);
        })
        (forget-Safe id _)

  replay-Safe :
      (id : ℕ) (found : Option Pending) (write : Write Value)
      → IsSafe write.meanwhile
      → IsSafe (replay id found write)
  unfolding replay
  replay-Safe id none write others c = Safe-refl c
  replay-Safe id (some p) write others c =
      Safe-if (done (c.responses.outcome p.future)) (Safe-refl c) (
        Safe-trans (send_request_payload-Safe id p.payload write others c)
          (after_replay-Safe id p.future _))

  replay_all-Safe :
      (writes : ℕ → Write Value)
      → ((id : ℕ) → IsSafe (writes id).meanwhile)
      → (ids : List ℕ) → IsSafe (replay_all writes ids)
  unfolding replay_all
  replay_all-Safe writes others [] c = Safe-refl c
  replay_all-Safe writes others (id ∷ ids) c =
      Safe-trans (replay-Safe id (get id c.pending_requests) (writes id) (others id) c)
        (replay_all-Safe writes others ids _)

  pub retry_waiting_requests-Safe :
      (rounds : ℕ) (writes : ℕ → ℕ → Write Value)
      → ((round id : ℕ) → IsSafe (writes round id).meanwhile)
      → IsSafe (retry_waiting_requests rounds writes)
  unfolding retry_waiting_requests
  retry_waiting_requests-Safe zero writes others c = Safe-refl c
  retry_waiting_requests-Safe (suc rounds) writes others c =
      let next = retry_waiting_requests-Safe rounds writes others in
      elim (dedupe c.waiting_request_ids)
        as (λ ids. Safe c (elim ids as (λ _. Client Value) [
          | [] ↦ record c { waiting_request_ids = [] }
          | id ∷ ids ↦
              retry_waiting_requests rounds writes
                (replay_all (writes rounds) (id ∷ ids) (record c { waiting_request_ids = [] }))
        ])) [
          | [] ↦ Safe-core refl
          | id ∷ ids ↦
              Safe-trans {d = record c { waiting_request_ids = [] }} (Safe-core refl)
                (Safe-trans (replay_all-Safe (writes rounds) (others rounds) (id ∷ ids) _) (next _))
        ]

  pub fail_request-Safe :
      (e : Failure) (id : ℕ) (found : Option Pending)
      → IsSafe {Value = Value} (fail_request e id found)
  unfolding fail_request
  fail_request-Safe e id none c = Safe-refl c
  fail_request-Safe e id (some p) c = record {
    fine = Fine-trans (core c) _ _ (pop-Fine id (core c)) (
        responses-Fine (core (record c { pending_requests = pop id c.pending_requests })) _
          (settle_undone-Kept p.future (exception e) c.responses));
  }

  fail_requests-Safe : (e : Failure) (ids : List ℕ) → IsSafe {Value = Value} (fail_requests e ids)
  unfolding fail_requests
  fail_requests-Safe e [] c = Safe-refl c
  fail_requests-Safe e (id ∷ ids) c =
      Safe-trans (fail_request-Safe e id (get id c.pending_requests) c) (fail_requests-Safe e ids _)

  pub fail_waiting_requests-Safe : (e : Failure) → IsSafe {Value = Value} (fail_waiting_requests e)
  unfolding fail_waiting_requests
  fail_waiting_requests-Safe e c =
      Safe-trans {d = record c { waiting_request_ids = [] }} (Safe-core refl)
        (fail_requests-Safe e _ _)

  after_update-Safe :
      (t : TokenRefresh Value)
      → RefreshIsSafe t
      → (updated : Reply × Client Value) → Safe updated.1 (after_update t updated).1
  unfolding after_update
  after_update-Safe t others (returned true, c) =
      retry_waiting_requests-Safe t.rounds t.writes others.writes c
  after_update-Safe t others (returned false, c) = fail_waiting_requests-Safe api_error c
  after_update-Safe t others (raised e, c) = fail_waiting_requests-Safe e c
  after_update-Safe t others (was_cancelled, c) = Safe-refl c

  after_login-Safe :
      (t : TokenRefresh Value)
      → RefreshIsSafe t
      → (e : Option Failure) (c : Client Value) → Safe c (after_login t e c).1
  unfolding after_login
  after_login-Safe t others (some e) c = fail_waiting_requests-Safe e c
  after_login-Safe t others none c =
      Safe-trans (send_update_tokens-Safe true t.update others.update c)
        (after_update-Safe t others _)

  pub refresh_and_retry-Safe :
      (status : ℕ) (t : TokenRefresh Value)
      → RefreshIsSafe t
      → (c : Client Value) → Safe c (refresh_and_retry status t c).1
  unfolding refresh_and_retry
  refresh_and_retry-Safe status t others c =
      Safe-if_snd (status == 12) _ _
        (Safe-trans (others.meanwhile c) (after_login-Safe t others t.login_error _))
        (after_login-Safe t others none c)

  or_lose-Safe : (ended : Reply × Client Value) → Safe ended.1 (or_lose ended).1
  unfolding or_lose
  or_lose-Safe (returned true, c) = Safe-refl c
  or_lose-Safe (returned false, c) = lose_connection-Safe c
  or_lose-Safe (raised e, c) = lose_connection-Safe c
  or_lose-Safe (was_cancelled, c) = Safe-refl c

  pub run_standby_entry_refresh-Safe :
      (asleep : Client Value → Client Value) (t : TokenUpdate Value)
      → IsSafe asleep
      → UpdateIsSafe t
      → (c : Client Value) → Safe c (run_standby_entry_refresh asleep t c).1
  unfolding run_standby_entry_refresh
  run_standby_entry_refresh-Safe asleep t still others c = Safe-trans (still c) (
      Safe-if_snd (connected (asleep c)) _ _
        (Safe-trans (send_update_tokens-Safe true t others _) (or_lose-Safe _)) (Safe-refl _))

  after_poll-Safe : (sent : Option Failure × Client Value) → Safe sent.1 (after_poll sent)
  unfolding after_poll
  after_poll-Safe (none, c) = Safe-refl c
  after_poll-Safe (some e, c) = lose_connection-Safe c

  poll-Safe :
      (id : Option ℕ) (payload : List ℕ) (write : Write Value)
      → IsSafe write.meanwhile
      → IsSafe (poll id payload write)
  unfolding poll
  poll-Safe none payload write others c = Safe-refl c
  poll-Safe (some id) payload write others c =
      Safe-trans (send_request_payload-Safe id payload write others c) (after_poll-Safe _)

  module _ (floats : Floats) (b64decode : List ℕ → Option (List ℕ)) where
    resubscribe-Safe :
        (settled : Client Value → Client Value) (sends : ℕ → Send Value) (payloads : List (List ℕ))
        → IsSafe settled
        → ((n : ℕ) → SendIsSafe (sends n))
        → (updated : Reply × Client Value)
        → Safe updated.1 (resubscribe floats b64decode settled sends payloads updated).1
    unfolding resubscribe send_initial_subscriptions
    resubscribe-Safe settled sends payloads still others (returned true, c) = Safe-trans (still c) (
        Safe-if_snd (connected (settled c)) _ _
          (subscribe_from-Safe floats b64decode sends others 0 payloads 0 _) (Safe-refl _))
    resubscribe-Safe settled sends payloads still others (returned false, c) = Safe-refl c
    resubscribe-Safe settled sends payloads still others (raised e, c) = Safe-refl c
    resubscribe-Safe settled sends payloads still others (was_cancelled, c) = Safe-refl c

    pub run_standby_wake_refresh-Safe :
        (asleep settled : Client Value → Client Value) (t : TokenUpdate Value)
        (sends : ℕ → Send Value) (payloads : List (List ℕ))
        → IsSafe asleep
        → IsSafe settled
        → UpdateIsSafe t
        → ((n : ℕ) → SendIsSafe (sends n))
        → (c : Client Value)
        → Safe c (run_standby_wake_refresh floats b64decode asleep settled t sends payloads c).1
    unfolding run_standby_wake_refresh
    run_standby_wake_refresh-Safe asleep settled t sends payloads still still' others others' c =
        Safe-trans (still c) (
          Safe-if_snd (connected (asleep c)) _ _
            (Safe-trans (send_update_tokens-Safe true t others _) (
              Safe-trans (resubscribe-Safe settled sends payloads still' others' _)
                (or_lose-Safe _)))
            (Safe-refl _))

    pub send_refresh-Safe :
        (b64encode : List ℕ → List ℕ) (keepalive_id drawn now : ℤ) (write : Write Value)
        → IsSafe write.meanwhile
        → IsSafe (send_refresh floats b64decode b64encode keepalive_id drawn now write)
    unfolding send_refresh
    send_refresh-Safe b64encode keepalive_id drawn now write others c =
        Safe-if _ (poll-Safe _ _ write others c) (Safe-refl c)
