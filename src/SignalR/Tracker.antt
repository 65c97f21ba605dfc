-- ===== src/SignalR/Tracker.antt =====
-- What the pending requests of signalr_client.py are to a caller: a table of the request ids that wait
-- for a response, with the future of each. The operations on the dict, the futures and the queue are
-- the few operations of the table.
use mathlib.Core.Path.{fun_ext}
use hymer_connect_ha.Prelude.{
  ap, sym, ◌∙◌, inr, inl, ℕ, Bool, Option, none, some, List, [], ◌∷◌, ◌≡◌, refl, Bool-cases,
}
use hymer_connect_ha.Prelude.Dict.{get, get-pop, contains}
use hymer_connect_ha.Pia.Envelopes.{ResponseMessage}
use hymer_connect_ha.SignalR.{Failure, done, Pending, Client, forget}
use hymer_connect_ha.SignalR.Messages.{answer}
use hymer_connect_ha.SignalR.Requests.{register, join_pending}
use hymer_connect_ha.SignalR.Release.{release-IsReleased}
use hymer_connect_ha.SignalR.Queue.{contains-dedupe}
use hymer_connect_ha.SignalR.Safety.Refresh.{fail_request-Safe}
use hymer_connect_ha.SignalR.Refresh.{dedupe, fail_request, fail_requests, fail_waiting_requests}
use hymer_connect_ha.SignalR.Listen.{release}
use hymer_connect_ha.SignalR.Core.{core, Inv}
use hymer_connect_ha.SignalR.Table.{
  all_closed, answer-table, closed, closed-all_closed, closed_apart, forget-table, joined,
  open_future, opened, opened_already, register-table, settle_undone_apart, shut-table, table,
}

module _ {Value : Type 0} where
  -- What a new request gets: the future `joined`, which is open from then on.
  abbrev Joins : ℕ → Client Value → ℕ × Bool × Client Value → Type 0
  Joins id c ended =
      (ended.0 ≡ joined (table c id) c.responses.allocated)
      × (table ended.2 ≡ opened id ended.0 (table c))

  join-table :
      (id : ℕ) (payload : List ℕ) (c : Client Value)
      → Inv (core c)
      → (found : Option Pending) → get id c.pending_requests ≡ found
      → Joins id c (join_pending id payload found c)
  unfolding join_pending joined register
  join-table id payload c inv none gone =
      let e : table c id ≡ none = unfold table open_future in rw gone in
      (rw e, register-table id payload c inv)
  join-table id payload c inv (some p) there =
      elim (Bool-cases (done (c.responses.outcome p.future))) [
        | inl settled ↦
            let e : table c id ≡ none = unfold table open_future in rw (there, settled) in
            rw settled (rw e, register-table id payload c inv)
        | inr undone ↦
            let e : table c id ≡ some p.future = unfold table open_future in rw (there, undone) in
            rw undone (rw e, opened_already id p.future c e)
      ]

  release-table : (c : Client Value) → table (release c) ≡ (λ i. none)
  unfolding table open_future get
  release-table c = fun_ext (λ i. rw (release-IsReleased c).no_requests)

  fail_request-table :
      (e : Failure) (k : ℕ) (c : Client Value)
      → Inv (core c)
      → (found : Option Pending) → get k c.pending_requests ≡ found
      → table (fail_request e k found c) ≡ closed k (table c)
  unfolding fail_request
  fail_request-table e k c inv none gone = shut-table k c none gone (unfold open_future in refl)
  fail_request-table e k c inv (some p) there =
      closed_apart c _ k (λ i. get-pop i k c.pending_requests)
        (λ i q other old.
          settle_undone_apart e p.future q.future c.responses
            (λ same. other (inv.apart i k q p old there (sym same))))

  fail_requests-table :
      (e : Failure) (ids : List ℕ) (c : Client Value)
      → Inv (core c)
      → table (fail_requests e ids c) ≡ all_closed ids (table c)
  unfolding fail_requests
  fail_requests-table e [] c inv = unfold all_closed contains in refl
  fail_requests-table e (k ∷ ids) c inv =
      let safe = (fail_request-Safe e k (get k c.pending_requests) c).fine inv in
      fail_requests-table e ids _ safe.0
      ∙ ap (all_closed ids) (fail_request-table e k c inv (get k c.pending_requests) refl)
      ∙ closed-all_closed k ids (table c)

  fail_waiting_requests-table :
      (e : Failure) (c : Client Value)
      → Inv (core c)
      → table (fail_waiting_requests e c) ≡ all_closed c.waiting_request_ids (table c)
  unfolding fail_waiting_requests contains table
  fail_waiting_requests-table e c inv =
      fail_requests-table e (dedupe c.waiting_request_ids) (record c { waiting_request_ids = [] })
        inv
      ∙ fun_ext (λ i. unfold all_closed in rw (contains-dedupe i c.waiting_request_ids))

  -- Each operation of the client is its operation of the table.
  pub record Refines (c : Client Value) : Type 0 where
    pub joins :
        (id : ℕ) (payload : List ℕ)
        → Joins id c (join_pending id payload (get id c.pending_requests) c)
    pub answers :
        (response : ResponseMessage)
        → table (answer (some response) c) ≡ closed response.request_id (table c)
    pub forgets : (id : ℕ) → table (forget id c) ≡ closed id (table c)
    pub fails :
        (e : Failure)
        → table (fail_waiting_requests e c) ≡ all_closed c.waiting_request_ids (table c)
    pub releases : table (release c) ≡ (λ i. none)

  -- Where registered futures have been created and are not shared, the operations on the pending
  -- requests are those of a table of open request ids: a new request is given the open future of
  -- its id, or else a new one, and is open; a response closes its id and no other; so does
  -- forgetting an id; a failed refresh closes the queued ids; and the cleanup closes all.
  pub Inv-Refines : (c : Client Value) → Inv (core c) → Refines c
  Inv-Refines c inv = record {
    joins = λ id payload. join-table id payload c inv (get id c.pending_requests) refl;
    answers = λ response. answer-table response c inv;
    forgets = λ id. forget-table id c;
    fails = λ e. fail_waiting_requests-table e c inv;
    releases = release-table c;
  }
