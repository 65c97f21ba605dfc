-- ===== src/SignalR/Safety.antt =====
-- The steps of signalr_client.py on the futures: which changes of the client keep the invariant of the
-- pending requests and every settled future, and the rules by which they are put together.
pub mod Messages
pub mod Requests
pub mod Refresh
pub mod Listen
pub mod Stop
pub mod Update
use mathlib.Core.Path.{subst}
use hymer_connect_ha.Prelude.{
  sym, inr, inl, ℕ, ◌+◌, Bool, true, false, Option, none, some, List, [], ◌∷◌, ◌≡◌, refl, arith,
  ◌==◌, if◌then◌else◌, Bool-cases, Option-cases,
}
use hymer_connect_ha.Prelude.Dict.{Dict, get, put, pop, contains}
use hymer_connect_ha.Pia.Envelopes.{ResponseMessage}
use hymer_connect_ha.SignalR.{
  Outcome, done, settle, settle_undone, Pending, Client, Write, Failure, notify_connection_lost,
  lose_connection, schedule_standby_wake_refresh, schedule_standby_entry_refresh, enqueue,
  schedule_token_refresh_retry, forget, settle_response, mark_sent, after_write, is_live, in_flight,
  send_request_payload,
}
use hymer_connect_ha.SignalR.Core.{
  Core, core, Fine, Fine-refl, Fine-trans, pop-Fine, put-Fine, responses-Fine, settle-Kept,
}

module _ {Value : Type 0} where
  pub record Safe (c c' : Client Value) : Type 0 where
    pub fine : Fine (core c) (core c')

  abbrev pub IsSafe : (Client Value → Client Value) → Type 0
  IsSafe act = (c : Client Value) → Safe c (act c)

  pub Safe-refl : (c : Client Value) → Safe c c
  Safe-refl c = record { fine = Fine-refl (core c) }

  pub Safe-trans : {c d e : Client Value} → Safe c d → Safe d e → Safe c e
  Safe-trans {c} {d} {e} f g = record { fine = Fine-trans (core c) (core d) (core e) f.fine g.fine }

  -- A step that leaves the futures and the dicts alone.
  pub Safe-core : {c c' : Client Value} → core c' ≡ core c → Safe c c'
  Safe-core {c} {c'} e = record { fine = subst (λ k. Fine (core c) k) (sym e) (Fine-refl (core c)) }

  pub Safe-if :
      (b : Bool) {c d e : Client Value} → Safe c d → Safe c e → Safe c (if b then d else e)
  Safe-if true f g = f
  Safe-if false f g = g

  pub Safe-if_snd {ℓ} :
      {A : Type ℓ} (b : Bool) {c : Client Value} (x y : A × Client Value)
      → Safe c x.1
      → Safe c y.1
      → Safe c (if b then x else y).1
  Safe-if_snd true x y f g = f
  Safe-if_snd false x y f g = g

  pub notify_connection_lost-Safe : IsSafe notify_connection_lost
  unfolding notify_connection_lost
  notify_connection_lost-Safe c = Safe-if c.connection_lost_notified (Safe-refl c) (Safe-core refl)

  pub lose_connection-Safe : IsSafe lose_connection
  unfolding lose_connection
  lose_connection-Safe c = Safe-if c.connection_lost_notified (Safe-core refl) (Safe-core refl)

  pub schedule_standby_wake_refresh-Safe : IsSafe schedule_standby_wake_refresh
  unfolding schedule_standby_wake_refresh
  schedule_standby_wake_refresh-Safe c =
      Safe-if (in_flight c.standby_wake_refresh_task) (Safe-refl c) (Safe-core refl)

  pub schedule_standby_entry_refresh-Safe : IsSafe schedule_standby_entry_refresh
  unfolding schedule_standby_entry_refresh
  schedule_standby_entry_refresh-Safe c =
      Safe-if (in_flight c.standby_entry_refresh_task) (Safe-refl c) (Safe-core refl)

  pub enqueue-Safe : (id : ℕ) → IsSafe (enqueue id)
  unfolding enqueue
  enqueue-Safe id c = Safe-if (contains id c.waiting_request_ids) (Safe-refl c) (Safe-core refl)

  pub schedule_token_refresh_retry-Safe : (id : Option ℕ) → IsSafe (schedule_token_refresh_retry id)
  unfolding schedule_token_refresh_retry
  schedule_token_refresh_retry-Safe none c =
      Safe-if (in_flight c.token_refresh_task) (Safe-refl c) (Safe-core refl)
  schedule_token_refresh_retry-Safe (some id) c =
      Safe-trans (enqueue-Safe id c)
        (Safe-if (in_flight (enqueue id c).token_refresh_task) (Safe-refl _) (Safe-core refl))

  pub forget-Safe : (id : ℕ) → IsSafe (forget id)
  unfolding forget
  forget-Safe id c = record { fine = pop-Fine id (core c) }

  pub settle_response-Safe :
      (r : ℕ) (o : Outcome ResponseMessage) (c : Client Value)
      → done (c.responses.outcome r) ≡ false
      → Safe c (settle_response r o c)
  unfolding settle_response
  settle_response-Safe r o c undone = record {
    fine = responses-Fine (core c) _ (settle-Kept r o c.responses undone);
  }

  pub mark_sent-Safe : (id : ℕ) → IsSafe (mark_sent id)
  unfolding mark_sent
  mark_sent-Safe id c = elim (Option-cases (get id c.pending_requests)) [
    | inl gone ↦ rw (gone, mark_sent) (Safe-refl c)
    | inr (p, there) ↦
        rw (there, mark_sent)
          (record { fine = put-Fine id p (record p { sent = true }) (core c) there refl })
  ]

  pub after_write-Safe :
      (id : ℕ) (payload : List ℕ) (e : Option Failure) (c : Client Value)
      → Safe c (after_write id payload e c).1
  unfolding after_write
  after_write-Safe id payload none c =
      Safe-trans {d = record c { written = payload ∷ c.written }} (Safe-core refl)
        (mark_sent-Safe id _)
  after_write-Safe id payload (some e) c = Safe-refl c

  pub send_request_payload-Safe :
      (id : ℕ) (payload : List ℕ) (write : Write Value)
      → IsSafe write.meanwhile
      → (c : Client Value) → Safe c (send_request_payload id payload write c).1
  unfolding send_request_payload
  send_request_payload-Safe id payload write others c =
      Safe-if_snd (is_live c.ws) _ _
        (Safe-trans (others c) (after_write-Safe id payload write.write_error (write.meanwhile c)))
        (Safe-refl c)
