-- ===== src/SignalR/Drain.antt =====
-- A token refresh that ends leaves no request queued, signalr_client.py.
use mathlib.Core.Path.{subst}
use hymer_connect_ha.Prelude.{
  sym, ◌∙◌, ℕ, suc, Bool, true, false, Option, none, some, List, [], ◌∷◌, ◌≡◌, ◌≢◌, inl, inr, refl,
  ◌==◌, if◌then◌else◌, Bool-cases, Option-cases,
}
use hymer_connect_ha.Prelude.Dict.{get}
use hymer_connect_ha.SignalR.{
  Failure, api_error, done, Pending, Client, Write, Reply, returned, raised, was_cancelled, forget,
  mark_sent, after_write, is_live, send_request_payload,
}
use hymer_connect_ha.SignalR.Refresh.{
  TokenRefresh, dedupe, after_replay, replay, replay_all, retry_waiting_requests, after_update,
  after_login, refresh_and_retry,
}
use hymer_connect_ha.SignalR.Queue.{fail_waiting_requests-IsFailed}

module _ {Value : Type 0} where
  -- What the other tasks do during a replay queues nothing.
  abbrev pub QueuesNothing : (Client Value → Client Value) → Type 0
  QueuesNothing act = (c : Client Value) → (act c).waiting_request_ids ≡ c.waiting_request_ids

  mark_sent-QueuesNothing : (id : ℕ) → QueuesNothing (mark_sent id)
  unfolding mark_sent
  mark_sent-QueuesNothing id c = elim (Option-cases (get id c.pending_requests)) [
    | inl gone ↦ rw (gone, mark_sent)
    | inr (p, there) ↦ rw (there, mark_sent)
  ]

  after_write-quiet :
      (id : ℕ) (payload : List ℕ) (e : Option Failure) (c : Client Value)
      → (after_write id payload e c).1.waiting_request_ids ≡ c.waiting_request_ids
  unfolding after_write
  after_write-quiet id payload none c = mark_sent-QueuesNothing id _
  after_write-quiet id payload (some e) c = refl

  send_request_payload-quiet :
      (id : ℕ) (payload : List ℕ) (write : Write Value)
      → QueuesNothing write.meanwhile
      → (c : Client Value)
      → (send_request_payload id payload write c).1.waiting_request_ids ≡ c.waiting_request_ids
  unfolding send_request_payload
  send_request_payload-quiet id payload write quiet c = elim (Bool-cases (is_live c.ws)) [
    | inl e ↦ rw e (after_write-quiet id payload write.write_error _ ∙ quiet c)
    | inr e ↦ rw e
  ]

  after_replay-quiet :
      (id r : ℕ) (sent : Option Failure × Client Value)
      → (after_replay id r sent).waiting_request_ids ≡ sent.1.waiting_request_ids
  unfolding after_replay forget
  after_replay-quiet id r (none, c) = refl
  after_replay-quiet id r (some e, c) = refl

  replay-QueuesNothing :
      (id : ℕ) (found : Option Pending) (write : Write Value)
      → QueuesNothing write.meanwhile
      → QueuesNothing (replay id found write)
  unfolding replay
  replay-QueuesNothing id none write quiet c = refl
  replay-QueuesNothing id (some p) write quiet c =
      elim (Bool-cases (done (c.responses.outcome p.future))) [
        | inl e ↦ rw e
        | inr e ↦ rw e (
            after_replay-quiet id p.future _
            ∙ send_request_payload-quiet id p.payload write quiet c)
      ]

  replay_all-QueuesNothing :
      (writes : ℕ → Write Value)
      → ((id : ℕ) → QueuesNothing (writes id).meanwhile)
      → (ids : List ℕ) → QueuesNothing (replay_all writes ids)
  unfolding replay_all
  replay_all-QueuesNothing writes quiet [] c = refl
  replay_all-QueuesNothing writes quiet (id ∷ ids) c =
      replay_all-QueuesNothing writes quiet ids _
      ∙ replay-QueuesNothing id _ (writes id) (quiet id) c

  -- One more round ends at an empty queue.
  last_round :
      (rounds : ℕ) (writes : ℕ → ℕ → Write Value) (c : Client Value)
      → c.waiting_request_ids ≡ []
      → (retry_waiting_requests (suc rounds) writes c).waiting_request_ids ≡ []
  unfolding retry_waiting_requests
  last_round rounds writes c empty =
      let e : dedupe c.waiting_request_ids ≡ [] = unfold dedupe in rw empty in
      rw (e, retry_waiting_requests)

  retry_waiting_requests-empty :
      (rounds : ℕ) (writes : ℕ → ℕ → Write Value)
      → ((round id : ℕ) → QueuesNothing (writes round id).meanwhile)
      → (c : Client Value)
      → (retry_waiting_requests (suc (suc rounds)) writes c).waiting_request_ids ≡ []
  unfolding retry_waiting_requests
  retry_waiting_requests-empty rounds writes quiet c =
      elim (dedupe c.waiting_request_ids)
        as (λ ids.
          (elim ids as (λ _. Client Value) [
            | [] ↦ record c { waiting_request_ids = [] }
            | id ∷ ids ↦ retry_waiting_requests (suc rounds) writes (
                replay_all (writes (suc rounds)) (id ∷ ids) (record c { waiting_request_ids = [] }))
          ]).waiting_request_ids
          ≡ []) [
            | [] ↦ refl
            | id ∷ ids ↦
                last_round rounds writes _
                  (replay_all-QueuesNothing (writes (suc rounds)) (quiet (suc rounds)) (id ∷ ids) _)
          ]

  module _ (t : TokenRefresh Value) (rounds : ℕ) (enough : t.rounds ≡ suc (suc rounds))
      (quiet : (round id : ℕ) → QueuesNothing (t.writes round id).meanwhile) where
    after_update-empty :
        (updated : Reply × Client Value)
        → (after_update t updated).0 ≢ was_cancelled
        → (after_update t updated).1.waiting_request_ids ≡ []
    unfolding after_update
    after_update-empty (returned true, c) ended =
        subst (λ (n : ℕ). (retry_waiting_requests n t.writes c).waiting_request_ids ≡ [])
          (sym enough) (retry_waiting_requests-empty rounds t.writes quiet c)
    after_update-empty (returned false, c) ended =
        (fail_waiting_requests-IsFailed api_error c).no_queue
    after_update-empty (raised e, c) ended = (fail_waiting_requests-IsFailed e c).no_queue
    after_update-empty (was_cancelled, c) ended = absurd (ended refl)

    after_login-empty :
        (e : Option Failure) (c : Client Value)
        → (after_login t e c).0 ≢ was_cancelled
        → (after_login t e c).1.waiting_request_ids ≡ []
    unfolding after_login
    after_login-empty (some e) c ended = (fail_waiting_requests-IsFailed e c).no_queue
    after_login-empty none c ended = after_update-empty _ ended

    after_status-empty :
        (b : Bool) (x y : Reply × Client Value)
        → (x.0 ≢ was_cancelled → x.1.waiting_request_ids ≡ [])
        → (y.0 ≢ was_cancelled → y.1.waiting_request_ids ≡ [])
        → (if b then x else y).0 ≢ was_cancelled
        → (if b then x else y).1.waiting_request_ids ≡ []
    after_status-empty true x y f g = f
    after_status-empty false x y f g = g

    -- With at least two rounds, and other tasks that queue nothing while the queued requests are
    -- written again: a token refresh that is not cancelled leaves no request in the queue, whether
    -- it succeeds or raises.
    pub refresh_and_retry-empty :
        (status : ℕ) (c : Client Value)
        → (refresh_and_retry status t c).0 ≢ was_cancelled
        → (refresh_and_retry status t c).1.waiting_request_ids ≡ []
    unfolding refresh_and_retry
    refresh_and_retry-empty status c =
        after_status-empty (status == 12) _ _ (after_login-empty t.login_error (t.meanwhile c))
          (after_login-empty none c)
