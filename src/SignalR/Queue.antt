-- ===== src/SignalR/Queue.antt =====
-- The requests that are queued while the tokens are refreshed, signalr_client.py: a refresh that fails
-- settles them.
use hymer_connect_ha.Prelude.{
  ◌∙◌, ==→eq, ==_refl, ℕ, true, false, Option, none, some, List, [], ◌∷◌, ◌≡◌, ◌⊎◌, inl, inr, refl,
  arith, ◌==◌, if◌then◌else◌, Bool-cases,
}
use hymer_connect_ha.Prelude.Dict.{get, get-pop, contains}
use hymer_connect_ha.SignalR.{
  Failure, Outcome, exception, done, Heap, settle_undone, Pending, Client,
}
use hymer_connect_ha.SignalR.Refresh.{
  without, dedupe, fail_request, fail_requests, fail_waiting_requests,
}

contains-without :
    (i k : ℕ) (ks : List ℕ) → contains i (without k ks) ≡ (if k == i then false else contains i ks)
unfolding contains without
contains-without i k [] = ground arith
contains-without i k (j ∷ ks) = ground (arith, contains-without i k ks)

pub contains-dedupe : (i : ℕ) (ks : List ℕ) → contains i (dedupe ks) ≡ contains i ks
unfolding contains dedupe
contains-dedupe i [] = refl
contains-dedupe i (k ∷ ks) = ground (arith, contains-without i k (dedupe ks), contains-dedupe i ks)

-- A future that waits, or holds this exception, does so or holds it afterwards.
abbrev Open : {A : Type 0} → Failure → Outcome A → Type 0
Open e o = (done o ≡ false) ⊎ (o ≡ exception e)

module _ {A : Type 0} (e : Failure) (h : Heap A) where
  settle_undone-eq :
      (r i : ℕ)
      → h.outcome i ≡ exception e
      → (settle_undone r (exception e) h).outcome i ≡ exception e
  unfolding settle_undone
  settle_undone-eq r i held = elim (Bool-cases (done (h.outcome r))) [
    | inl old ↦ rw old held
    | inr new ↦
        rw new (elim (Bool-cases (r == i)) [ inl same ↦ rw same | inr other ↦ rw other held ])
  ]

  settle_undone-Open :
      (r i : ℕ) → Open e (h.outcome i) → Open e ((settle_undone r (exception e) h).outcome i)
  unfolding settle_undone
  settle_undone-Open r i open_before = elim (Bool-cases (done (h.outcome r))) [
    | inl old ↦ rw old open_before
    | inr new ↦ rw new (elim (Bool-cases (r == i)) [
      | inl same ↦ rw same (inr refl)
      | inr other ↦ rw other open_before
    ])
  ]

  settle_undone-eq_self :
      (r : ℕ) → Open e (h.outcome r) → (settle_undone r (exception e) h).outcome r ≡ exception e
  unfolding settle_undone
  settle_undone-eq_self r (inl undone) = rw (undone, ==_refl r)
  settle_undone-eq_self r (inr held) = rw (held, held)

module _ {Value : Type 0} (e : Failure) where
  get-fail_requests :
      (i : ℕ) (ids : List ℕ) (c : Client Value)
      → get i (fail_requests e ids c).pending_requests
        ≡ (if contains i ids then none else get i c.pending_requests)
  unfolding fail_requests contains
  get-fail_requests i [] c = refl
  get-fail_requests i (k ∷ ids) c =
      get-fail_requests i ids _ ∙ through (get k c.pending_requests) refl
    where
      through :
          (found : Option Pending)
          → get k c.pending_requests ≡ found
          → (if contains i ids then none else get i (fail_request e k found c).pending_requests)
            ≡ (if if k == i then true else contains i ids then none else get i c.pending_requests)
      through none gone =
          unfold fail_request in
          elim (Bool-cases (k == i)) [
            | inl same ↦ ground (arith, ==→eq k i same)
            | inr other ↦ rw other
          ]
      through (some p) there = unfold fail_request in ground (arith, get-pop i k c.pending_requests)

  -- Every request that is in the list ends with the exception, if it had no other end.
  held_after :
      (ids : List ℕ) (r : ℕ) (c : Client Value)
      → c.responses.outcome r ≡ exception e
      → (fail_requests e ids c).responses.outcome r ≡ exception e
  unfolding fail_requests
  held_after [] r c held = held
  held_after (k ∷ ids) r c held = held_after ids r _ (
      unfold fail_request in
      elim (get k c.pending_requests)
        as (λ found. (fail_request e k found c).responses.outcome r ≡ exception e) [
          | none ↦ held
          | some p ↦ settle_undone-eq e c.responses p.future r held
        ])

  unsettled_after :
      (k r : ℕ) (found : Option Pending) (c : Client Value)
      → Open e (c.responses.outcome r)
      → Open e ((fail_request e k found c).responses.outcome r)
  unfolding fail_request
  unsettled_after k r none c before = before
  unsettled_after k r (some p) c before = settle_undone-Open e c.responses p.future r before

  -- The step at the request itself, and the one at another.
  settled_here :
      (k : ℕ) (p : Pending) (ids : List ℕ) (c : Client Value)
      → get k c.pending_requests ≡ some p
      → Open e (c.responses.outcome p.future)
      → (fail_requests e ids (fail_request e k (get k c.pending_requests) c)).responses.outcome
          p.future
        ≡ exception e
  unfolding fail_request
  settled_here k p ids c there before =
      rw there (held_after ids p.future _ (settle_undone-eq_self e c.responses p.future before))

  still_there :
      (i k : ℕ) (found : Option Pending) (c : Client Value)
      → (k == i) ≡ false
      → get i (fail_request e k found c).pending_requests ≡ get i c.pending_requests
  unfolding fail_request
  still_there i k none c other = refl
  still_there i k (some p) c other = ground (arith, get-pop i k c.pending_requests)

  fail_requests-settled :
      (ids : List ℕ) (i : ℕ) (p : Pending) (c : Client Value)
      → contains i ids ≡ true
      → get i c.pending_requests ≡ some p
      → Open e (c.responses.outcome p.future)
      → (fail_requests e ids c).responses.outcome p.future ≡ exception e
  unfolding fail_requests contains
  fail_requests-settled [] i p c inside there before = cc
  fail_requests-settled (k ∷ ids) i p c inside there before =
      let next = fail_requests-settled ids i p in
      elim (Bool-cases (k == i)) [
        | inl same ↦ settled_here k p ids c (rw (==→eq k i same) there) before
        | inr other ↦
            next _ (ground arith) (still_there i k _ c other ∙ there)
              (unsettled_after k p.future _ c before)
      ]

  -- `d` is the client after the failure of a refresh.
  pub record IsFailed (c d : Client Value) : Type 0 where
    pub no_queue : d.waiting_request_ids ≡ []
    pub pending :
        (i : ℕ)
        → get i d.pending_requests
          ≡ (if contains i c.waiting_request_ids then none else get i c.pending_requests)
    pub settled :
        (i : ℕ) (p : Pending)
        → contains i c.waiting_request_ids ≡ true
        → get i c.pending_requests ≡ some p
        → done (c.responses.outcome p.future) ≡ false
        → d.responses.outcome p.future ≡ exception e

  no_queue_fail_requests :
      (ids : List ℕ) (c : Client Value)
      → (fail_requests e ids c).waiting_request_ids ≡ c.waiting_request_ids
  unfolding fail_requests
  no_queue_fail_requests [] c = refl
  no_queue_fail_requests (k ∷ ids) c =
      no_queue_fail_requests ids _
      ∙ (unfold fail_request in
          elim (get k c.pending_requests)
            as (λ found. (fail_request e k found c).waiting_request_ids ≡ c.waiting_request_ids) [
              | none ↦ refl
              | some p ↦ refl
            ])

  -- When a token refresh fails, the queue is emptied, the queued requests and no others are no
  -- longer pending, and the future of each queued request that was pending and not settled holds
  -- the exception.
  pub fail_waiting_requests-IsFailed : (c : Client Value) → IsFailed c (fail_waiting_requests e c)
  unfolding fail_waiting_requests
  fail_waiting_requests-IsFailed c = record {
    no_queue = no_queue_fail_requests (dedupe c.waiting_request_ids) _;
    pending = λ i.
        get-fail_requests i (dedupe c.waiting_request_ids) _
        ∙ rw (contains-dedupe i c.waiting_request_ids);
    settled = λ i p inside there undone.
        fail_requests-settled (dedupe c.waiting_request_ids) i p _
          (contains-dedupe i c.waiting_request_ids ∙ inside) there (inl undone);
  }
