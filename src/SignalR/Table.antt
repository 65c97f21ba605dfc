-- ===== src/SignalR/Table.antt =====
-- The table of open requests, and the steps on the dict of pending requests that it sees,
-- signalr_client.py.
use mathlib.Core.Path.{fun_ext}
use hymer_connect_ha.Prelude.{
  ==→eq, inr, ==_refl, inl, ℕ, false, Option, none, some, List, ◌∷◌, ◌≡◌, ◌≢◌, refl, arith, ◌==◌,
  if◌then◌else◌, Bool-cases, Option-cases,
}
use hymer_connect_ha.Prelude.Dict.{get, get-put, get-pop, contains}
use hymer_connect_ha.Pia.Envelopes.{ResponseMessage}
use hymer_connect_ha.SignalR.{
  exception, settle_undone, Failure, done, Heap, Pending, Client, forget,
}
use hymer_connect_ha.SignalR.Messages.{answer_pending, answer}
use hymer_connect_ha.SignalR.Requests.{register}
use hymer_connect_ha.SignalR.Core.{core, Inv}
use hymer_connect_ha.SignalR.Answer.{answer-IsAnswered}

-- The future that the caller of each open request waits for.
abbrev pub Table : Type 0
Table = ℕ → Option ℕ

-- The operations of the table.
unfoldable pub opened : ℕ → ℕ → Table → Table
opened id r table i = if id == i then some r else table i

unfoldable pub closed : ℕ → Table → Table
closed id table i = if id == i then none else table i

unfoldable pub all_closed : List ℕ → Table → Table
all_closed ids table i = if contains i ids then none else table i

closed_already : (id : ℕ) (t : Table) → t id ≡ none → t ≡ closed id t
unfolding closed
closed_already id t none_there = fun_ext (λ i. elim (Bool-cases (id == i)) [
  | inl same ↦ rw (same, ← ==→eq id i same) none_there
  | inr other ↦ rw other
])

pub settle_undone_apart :
    {A : Type 0} (e : Failure) (r i : ℕ) (h : Heap A)
    → r ≢ i
    → (settle_undone r (exception e) h).outcome i ≡ h.outcome i
unfolding settle_undone
settle_undone_apart e r i h other = elim (Bool-cases (done (h.outcome r))) [
  | inl old ↦ rw old
  | inr new ↦
      rw new
        (elim (Bool-cases (r == i)) [ inl same ↦ absurd (other (==→eq r i same)) | inr ne ↦ rw ne ])
]

pub closed-all_closed :
    (k : ℕ) (ids : List ℕ) (t : Table) → all_closed ids (closed k t) ≡ all_closed (k ∷ ids) t
unfolding closed all_closed contains
closed-all_closed k ids t = fun_ext (λ i. elim (Bool-cases (contains i ids)) [
  | inl inside ↦ ground arith
  | inr outside ↦ ground arith
])

-- Where an id is open its future is shared, and else the new one is given.
unfoldable pub joined : Option ℕ → ℕ → ℕ
joined none fresh = fresh
joined (some r) fresh = r

-- A pending request is open until its future is settled.
unfoldable pub open_future : Heap ResponseMessage → Option Pending → Option ℕ
open_future h none = none
open_future h (some p) = if done (h.outcome p.future) then none else some p.future

module _ {Value : Type 0} where
  unfoldable pub table : Client Value → Table
  table c i = open_future c.responses (get i c.pending_requests)

  -- A new future opens nothing else.
  fresh_apart :
      (c : Client Value) (id i : ℕ) (payload : List ℕ)
      → Inv (core c)
      → table (register id payload c).1 i ≡ opened id c.responses.allocated (table c) i
  unfolding table opened register open_future
  fresh_apart c id i payload inv = elim (Bool-cases (id == i)) [
    | inl same ↦ rw (
      get-put i id (record { payload = payload; future = c.responses.allocated; sent = false })
          c.pending_requests,
      same,
      ==_refl c.responses.allocated,
    )
    | inr other ↦
        rw
          (
            get-put i id
                (record { payload = payload; future = c.responses.allocated; sent = false })
                c.pending_requests,
            other,
          )
          (elim (Option-cases (get i c.pending_requests)) [
            | inl gone ↦ rw gone
            | inr (p, there) ↦ let below = inv.pending_below i p there in rw there (ground arith)
          ])
  ]

  -- A request that is no longer pending is not open, and the others are as before.
  pub closed_apart :
      (c d : Client Value) (id : ℕ)
      → ((i : ℕ) → get i d.pending_requests ≡ (if id == i then none else get i c.pending_requests))
      → ((i : ℕ) (q : Pending)
          → i ≢ id
          → get i c.pending_requests ≡ some q
          → d.responses.outcome q.future ≡ c.responses.outcome q.future)
      → table d ≡ closed id (table c)
  unfolding table closed open_future
  closed_apart c d id pending apart = fun_ext (λ i. elim (Bool-cases (id == i)) [
    | inl same ↦ rw (pending i, same)
    | inr other ↦
        rw (pending i, other)
          (elim (Option-cases (get i c.pending_requests)) [
            | inl gone ↦ rw gone
            | inr (q, there) ↦
                rw (there, apart i q (λ (e : i ≡ id). cc (other, ==_refl i, e)) there)
          ])
  ])

  pub forget-table : (id : ℕ) (c : Client Value) → table (forget id c) ≡ closed id (table c)
  unfolding forget
  forget-table id c =
      closed_apart c (forget id c) id (λ i. get-pop i id c.pending_requests)
        (λ i q other there. refl)

  -- A request that is not open.
  pub shut-table :
      (id : ℕ) (c : Client Value) (found : Option Pending)
      → get id c.pending_requests ≡ found
      → open_future c.responses found ≡ none
      → table c ≡ closed id (table c)
  shut-table id c found there shut = closed_already id (table c) (unfold table in rw there shut)

  pub answer-table :
      (response : ResponseMessage) (c : Client Value)
      → Inv (core c)
      → table (answer (some response) c) ≡ closed response.request_id (table c)
  answer-table response c inv = elim (Option-cases (get response.request_id c.pending_requests)) [
    | inl gone ↦
        let e : answer (some response) c ≡ c = unfold answer answer_pending in rw gone in
        rw e (shut-table response.request_id c none gone (unfold open_future in refl))
    | inr (p, there) ↦ elim (Bool-cases (done (c.responses.outcome p.future))) [
      | inl settled ↦
          let e : answer (some response) c ≡ c =
            unfold answer answer_pending in rw (there, settled) in
          rw e (shut-table response.request_id c (some p) there (unfold open_future in rw settled))
      | inr undone ↦
          let answered = answer-IsAnswered response p c inv there undone in
          closed_apart c _ response.request_id answered.pending answered.apart
    ]
  ]

  pub register-table :
      (id : ℕ) (payload : List ℕ) (c : Client Value)
      → Inv (core c)
      → table (register id payload c).1 ≡ opened id c.responses.allocated (table c)
  register-table id payload c inv = fun_ext (λ i. fresh_apart c id i payload inv)

  pub opened_already :
      (id r : ℕ) (c : Client Value) → table c id ≡ some r → table c ≡ opened id r (table c)
  unfolding opened
  opened_already id r c there = fun_ext (λ i. elim (Bool-cases (id == i)) [
    | inl same ↦ rw (same, ← ==→eq id i same) there
    | inr other ↦ rw other
  ])
