-- ===== src/SignalR/Core.antt =====
-- The part of the client that holds the futures, and the changes of it that the operations are made
-- of. An operation is `Fine` if it keeps the invariant and changes no future that is settled.
use hymer_connect_ha.Prelude.{
  ap, inr, ==→eq, sym, Bool-cases, inl, ◌∙◌, ◌⊎◌, ℕ, ◌≤◌, ◌<◌, Bool, true, false, some, [], ◌≡◌,
  refl, arith, ◌==◌,
}
use hymer_connect_ha.Prelude.Dict.{Dict, get, put, pop, get-pop_inv, get-put_inv}
use hymer_connect_ha.Pia.Envelopes.{ResponseMessage}
use hymer_connect_ha.SignalR.{
  Outcome, done, Heap, settle, settle_undone, create_future, Pending, Client,
}

pub record Core : Type 0 where
  pub pending : Dict Pending
  pub responses : Heap ResponseMessage
  pub completion_futures : Dict ℕ
  pub completions : Heap Bool

abbrev pub core : {Value : Type 0} → Client Value → Core
core c = record {
  pending = c.pending_requests;
  responses = c.responses;
  completion_futures = c.completion_futures;
  completions = c.completions;
}

-- Every registered future has been created, and no two requests share one.
pub record Inv (k : Core) : Type 0 where
  pub pending_below :
      (i : ℕ) (p : Pending) → get i k.pending ≡ some p → p.future < k.responses.allocated
  pub apart :
      (i j : ℕ) (p q : Pending)
      → get i k.pending ≡ some p
      → get j k.pending ≡ some q
      → p.future ≡ q.future
      → i ≡ j
  pub completions_below :
      (i r : ℕ) → get i k.completion_futures ≡ some r → r < k.completions.allocated

-- Futures are only added, and those that are settled stay as they are.
pub record Kept {A : Type 0} (h h' : Heap A) : Type 0 where
  pub grown : h.allocated ≤ h'.allocated
  pub same : (r : ℕ) → r < h.allocated → done (h.outcome r) ≡ true → h'.outcome r ≡ h.outcome r

abbrev pub Fine : Core → Core → Type 0
Fine k k' = Inv k → Inv k' × Kept k.responses k'.responses × Kept k.completions k'.completions

module _ {A : Type 0} where
  pub Kept-refl : (h : Heap A) → Kept h h
  Kept-refl h = record { grown = omega arith; same = λ r below settled. refl }

  pub Kept-trans : (h g k : Heap A) → Kept h g → Kept g k → Kept h k
  Kept-trans h g k a b = record {
    grown = omega (arith, a.grown, b.grown);
    same = λ r below settled.
        let e = a.same r below settled in
        b.same r (omega (arith, a.grown, below)) (rw e settled) ∙ e;
  }

  pub settle-Kept :
      (r : ℕ) (o : Outcome A) (h : Heap A) → done (h.outcome r) ≡ false → Kept h (settle r o h)
  settle-Kept r o h undone = record {
    grown = omega arith;
    same = λ i below settled. elim (Bool-cases (r == i)) [
      | inl e ↦ absurd (cc (==→eq r i e, undone, settled))
      | inr e ↦ rw e
    ];
  }

  pub settle_undone-Kept : (r : ℕ) (o : Outcome A) (h : Heap A) → Kept h (settle_undone r o h)
  unfolding settle_undone
  settle_undone-Kept r o h = elim (Bool-cases (done (h.outcome r))) [
    | inl e ↦ rw e (Kept-refl h)
    | inr e ↦ rw e (settle-Kept r o h e)
  ]

  pub create_future-Kept : (h : Heap A) → Kept h (create_future h)
  create_future-Kept h = record { grown = omega arith; same = λ r below settled. ground arith }

pub Fine-refl : (k : Core) → Fine k k
Fine-refl k inv = (inv, Kept-refl _, Kept-refl _)

pub Fine-trans : (k l m : Core) → Fine k l → Fine l m → Fine k m
Fine-trans k l m f g inv =
    let (inv_l, a, b) = f inv in
    let (inv_m, a', b') = g inv_l in (inv_m, Kept-trans _ _ _ a a', Kept-trans _ _ _ b b')

-- A change of the heap of responses that keeps it, the dicts being left alone.
pub responses-Fine :
    (k : Core) (h : Heap ResponseMessage) → Kept k.responses h → Fine k (record k { responses = h })
responses-Fine k h a inv = (
  record {
    pending_below = λ i p e. omega (arith, inv.pending_below i p e, a.grown);
    apart = inv.apart;
    completions_below = inv.completions_below;
  },
  a,
  Kept-refl _,
)

pub completions-Fine :
    (k : Core) (h : Heap Bool) → Kept k.completions h → Fine k (record k { completions = h })
completions-Fine k h b inv = (
  record {
    pending_below = inv.pending_below;
    apart = inv.apart;
    completions_below = λ i r e. omega (arith, inv.completions_below i r e, b.grown);
  },
  Kept-refl _,
  b,
)

pub pop-Fine : (id : ℕ) (k : Core) → Fine k (record k { pending = pop id k.pending })
pop-Fine id k inv = (
  record {
    pending_below = λ i p e. inv.pending_below i p (get-pop_inv i id k.pending e);
    apart = λ i j p q a b.
        inv.apart i j p q (get-pop_inv i id k.pending a) (get-pop_inv j id k.pending b);
    completions_below = inv.completions_below;
  },
  Kept-refl _,
  Kept-refl _,
)

pub clear-Fine : (k : Core) → Fine k (record k { pending = []; completion_futures = [] })
unfolding get
clear-Fine k inv = (
  record {
    pending_below = λ i p e. absurd (cc);
    apart = λ i j p q a b. absurd (cc);
    completions_below = λ i r e. absurd (cc);
  },
  Kept-refl _,
  Kept-refl _,
)

pub forget_completion-Fine :
    (id : ℕ) (k : Core) → Fine k (record k { completion_futures = pop id k.completion_futures })
forget_completion-Fine id k inv = (
  record {
    pending_below = inv.pending_below;
    apart = inv.apart;
    completions_below =
        λ i r e. inv.completions_below i r (get-pop_inv i id k.completion_futures e);
  },
  Kept-refl _,
  Kept-refl _,
)

-- A pending request that keeps its future.
module _ (id : ℕ) (p p' : Pending) (k : Core) (there : get id k.pending ≡ some p)
    (shared : p'.future ≡ p.future) where
  -- The old entry behind an entry of the new dict has the same future.
  behind :
      (i : ℕ) (q : Pending)
      → get i (put id p' k.pending) ≡ some q
      → (q' : Pending) × (get i k.pending ≡ some q') × (q.future ≡ q'.future)
  behind i q e = elim (get-put_inv i id p' k.pending e) [
    | inl (same, new) ↦ (p, cc, cc)
    | inr (other, old) ↦ (q, old, refl)
  ]

  pub put-Fine : Fine k (record k { pending = put id p' k.pending })
  put-Fine inv = (
    record {
      pending_below =
          λ i q e. let (q', old, same) = behind i q e in rw same (inv.pending_below i q' old);
      apart = λ i j q s a b e.
          let (q', old, same) = behind i q a in
          let (s', old', same') = behind j s b in
          inv.apart i j q' s' old old' (sym same ∙ e ∙ same');
      completions_below = inv.completions_below;
    },
    Kept-refl _,
    Kept-refl _,
  )

-- A pending request with a new future.
module _ (id : ℕ) (p : Pending) (k : Core) (new : p.future ≡ k.responses.allocated) where
  below_or_new :
      (inv : Inv k) (i : ℕ) (q : Pending)
      → get i (put id p k.pending) ≡ some q
      → ((i ≡ id) × (q.future ≡ k.responses.allocated))
        ⊎ ((get i k.pending ≡ some q) × (q.future < k.responses.allocated))
  below_or_new inv i q e = elim (get-put_inv i id p k.pending e) [
    | inl (same, eq) ↦ inl (same, ap (λ (p : Pending). p.future) eq ∙ new)
    | inr (other, old) ↦ inr (old, inv.pending_below i q old)
  ]

  new_apart :
      (inv : Inv k) (i j : ℕ) (q s : Pending)
      → get i (put id p k.pending) ≡ some q
      → get j (put id p k.pending) ≡ some s
      → q.future ≡ s.future
      → i ≡ j
  new_apart inv i j q s a b e = elim (below_or_new inv i q a) [
    | inl (same, at) ↦ elim (below_or_new inv j s b) [
      | inl (same', at') ↦ same ∙ sym same'
      | inr (old', less') ↦ absurd (omega arith)
    ]
    | inr (old, less) ↦ elim (below_or_new inv j s b) [
      | inl (same', at') ↦ absurd (omega arith)
      | inr (old', less') ↦ inv.apart i j q s old old' e
    ]
  ]

  pub register-Fine :
      Fine k (record k { pending = put id p k.pending; responses = create_future k.responses })
  register-Fine inv = (
    record {
      pending_below = λ i q e. elim (below_or_new inv i q e) [
        | inl (same, at) ↦ omega arith
        | inr (old, less) ↦ omega arith
      ];
      apart = new_apart inv;
      completions_below = inv.completions_below;
    },
    create_future-Kept k.responses,
    Kept-refl _,
  )

pub register_invocation-Fine :
    (id : ℕ) (k : Core)
    → Fine k (record k {
      completion_futures = put id k.completions.allocated k.completion_futures;
      completions = create_future k.completions;
    })
register_invocation-Fine id k inv = (
  record {
    pending_below = inv.pending_below;
    apart = inv.apart;
    completions_below = λ i r e.
        elim (get-put_inv i id k.completions.allocated k.completion_futures e) [
          | inl (same, eq) ↦ omega arith
          | inr (other, old) ↦ omega (arith, inv.completions_below i r old)
        ];
  },
  Kept-refl _,
  create_future-Kept k.completions,
)
