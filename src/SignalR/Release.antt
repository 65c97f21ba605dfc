-- ===== src/SignalR/Release.antt =====
-- The end of `listen`, signalr_client.py: the cleanup leaves no future that anything waits for.
use hymer_connect_ha.Prelude.{
  ==_refl, inr, inl, ℕ, ◌+◌, Bool, true, false, Option, none, some, [], ◌∷◌, ◌≡◌, refl, arith, ◌==◌,
  if◌then◌else◌, Bool-cases,
}
use hymer_connect_ha.Prelude.Dict.{Dict, get}
use hymer_connect_ha.Pia.Envelopes.{ResponseMessage}
use hymer_connect_ha.SignalR.{
  Failure, api_error, exception, done, Heap, settle_undone, Pending, Client, Task, idle, active,
  finished, notify_connection_lost,
}
use hymer_connect_ha.SignalR.Listen.{
  Ending, Endings, end_task, close_completions, close_requests, release, and_then, cancel_tasks,
  cleanup,
}

-- The tasks that are cancelled end with CancelledError or a value.
pub record EndQuietly {Value : Type 0} (endings : Endings Value) : Type 0 where
  pub token_refresh : endings.token_refresh.task_error ≡ none
  pub standby_wake : endings.standby_wake.task_error ≡ none
  pub standby_entry : endings.standby_entry.task_error ≡ none

module _ {A : Type 0} where
  -- A future that is settled stays so, and the one that is written is.
  done-settle_undone :
      (r i : ℕ) (e : Failure) (h : Heap A)
      → done (h.outcome i) ≡ true
      → done ((settle_undone r (exception e) h).outcome i) ≡ true
  unfolding settle_undone
  done-settle_undone r i e h settled = elim (Bool-cases (done (h.outcome r))) [
    | inl old ↦ rw old settled
    | inr new ↦ rw new (elim (Bool-cases (r == i)) [ inl eq ↦ rw eq | inr ne ↦ rw ne settled ])
  ]

  pub done-settle_undone_self :
      (r : ℕ) (e : Failure) (h : Heap A) → done ((settle_undone r (exception e) h).outcome r) ≡ true
  unfolding settle_undone
  done-settle_undone_self r e h = elim (Bool-cases (done (h.outcome r))) [
    | inl old ↦ rw old old
    | inr new ↦ rw (new, ==_refl r)
  ]

done-close_requests :
    (e : Failure) (pending : Dict Pending) (i : ℕ) (h : Heap ResponseMessage)
    → done (h.outcome i) ≡ true
    → done ((close_requests e pending h).outcome i) ≡ true
unfolding close_requests
done-close_requests e [] i h settled = settled
done-close_requests e ((id, p) ∷ pending) i h settled =
    done-close_requests e pending i _ (done-settle_undone p.future i e h settled)

close_requests-done :
    (e : Failure) (pending : Dict Pending) (h : Heap ResponseMessage) (i : ℕ) (p : Pending)
    → get i pending ≡ some p
    → done ((close_requests e pending h).outcome p.future) ≡ true
unfolding close_requests get
close_requests-done e [] h i p there = cc
close_requests-done e ((id, q) ∷ pending) h i p there = elim (Bool-cases (id == i)) [
  | inl eq ↦
      let same : q ≡ p = ground arith in
      rw (← same) (done-close_requests e pending q.future _ (done-settle_undone_self q.future e h))
  | inr ne ↦ close_requests-done e pending _ i p (ground arith)
]

done-close_completions :
    (e : Failure) (futures : Dict ℕ) (i : ℕ) (h : Heap Bool)
    → done (h.outcome i) ≡ true
    → done ((close_completions e futures h).outcome i) ≡ true
unfolding close_completions
done-close_completions e [] i h settled = settled
done-close_completions e ((id, r) ∷ futures) i h settled =
    done-close_completions e futures i _ (done-settle_undone r i e h settled)

close_completions-done :
    (e : Failure) (futures : Dict ℕ) (h : Heap Bool) (i r : ℕ)
    → get i futures ≡ some r
    → done ((close_completions e futures h).outcome r) ≡ true
unfolding close_completions get
close_completions-done e [] h i r there = cc
close_completions-done e ((id, q) ∷ futures) h i r there = elim (Bool-cases (id == i)) [
  | inl eq ↦
      let same : q ≡ r = ground arith in
      rw (← same) (done-close_completions e futures q _ (done-settle_undone_self q e h))
  | inr ne ↦ close_completions-done e futures _ i r (ground arith)
]

module _ {Value : Type 0} where
  -- Nothing waits in `d`, which is `c` with its futures settled, and the loss has been told once.
  pub record IsReleased (c d : Client Value) : Type 0 where
    pub no_requests : d.pending_requests ≡ []
    pub no_completions : d.completion_futures ≡ []
    pub no_queue : d.waiting_request_ids ≡ []
    pub requests_settled :
        (i : ℕ) (p : Pending)
        → get i c.pending_requests ≡ some p
        → done (d.responses.outcome p.future) ≡ true
    pub completions_settled :
        (i r : ℕ) → get i c.completion_futures ≡ some r → done (d.completions.outcome r) ≡ true
    pub notified : d.connection_lost_notified ≡ true
    pub told_once : d.losses ≡ (if c.connection_lost_notified then c.losses else c.losses + 1)

  released :
      (b : Bool) (c : Client Value) → c.connection_lost_notified ≡ b → IsReleased c (release c)
  unfolding release notify_connection_lost
  released true c told = rw told (record {
    no_requests = refl;
    no_completions = refl;
    no_queue = refl;
    requests_settled = close_requests-done api_error c.pending_requests c.responses;
    completions_settled = close_completions-done api_error c.completion_futures c.completions;
    notified = refl;
    told_once = refl;
  })
  released false c told = rw told (record {
    no_requests = refl;
    no_completions = refl;
    no_queue = refl;
    requests_settled = close_requests-done api_error c.pending_requests c.responses;
    completions_settled = close_completions-done api_error c.completion_futures c.completions;
    notified = refl;
    told_once = refl;
  })

  pub release-IsReleased : (c : Client Value) → IsReleased c (release c)
  release-IsReleased c = released c.connection_lost_notified c refl

  end_task_quiet :
      (drop : Client Value → Client Value) (ending : Ending Value)
      → ending.task_error ≡ none
      → (task : Task) (c : Client Value) → (end_task drop ending task c).0 ≡ none
  unfolding end_task
  end_task_quiet drop ending quiet idle c = refl
  end_task_quiet drop ending quiet (active n) c = quiet
  end_task_quiet drop ending quiet (finished n) c = quiet

  and_then_quiet :
      (ended : Option Failure × Client Value) (next : Client Value → Option Failure × Client Value)
      → ended.0 ≡ none
      → ((d : Client Value) → (next d).0 ≡ none)
      → (and_then ended next).0 ≡ none
  unfolding and_then
  and_then_quiet (none, c) next quiet later = later c
  and_then_quiet (some e, c) next quiet later = cc

  cancel_tasks_quiet :
      (endings : Endings Value)
      → EndQuietly endings
      → (c : Client Value) → (cancel_tasks endings c).0 ≡ none
  unfolding cancel_tasks
  cancel_tasks_quiet endings quiet c =
      and_then_quiet _ _ (end_task_quiet _ _ quiet.token_refresh _ c) (λ c1.
        and_then_quiet _ _ (end_task_quiet _ _ quiet.standby_wake _ c1)
          (λ c2. end_task_quiet _ _ quiet.standby_entry _ c2))

  after_tasks :
      (ended : Option Failure × Client Value)
      → ended.0 ≡ none
      → ((and_then ended (λ c'. (none, release c'))).0 ≡ none)
        × IsReleased ended.1 (and_then ended (λ c'. (none, release c'))).1
  unfolding and_then
  after_tasks (none, c) quiet = (refl, release-IsReleased c)
  after_tasks (some e, c) quiet = absurd (cc)

  -- Where no awaited task ends with an exception, the cleanup of the listener raises nothing; then
  -- no request, completion or queued id is left, every request and completion future that was
  -- registered as the tasks had ended is settled, and the loss of the connection has been told to
  -- the coordinator, once more only if it had not been told before.
  pub cleanup-IsReleased :
      (endings : Endings Value) (c : Client Value)
      → EndQuietly endings
      → ((cleanup endings c).0 ≡ none)
        × IsReleased
            (cancel_tasks endings (record c { is_connected = false; running = false })).1
            (cleanup endings c).1
  unfolding cleanup
  cleanup-IsReleased endings c quiet =
      after_tasks (cancel_tasks endings (record c { is_connected = false; running = false }))
        (cancel_tasks_quiet endings quiet _)
