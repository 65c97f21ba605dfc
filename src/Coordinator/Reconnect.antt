-- ===== src/Coordinator/Reconnect.antt =====
-- The reconnect loop of coordinator.py: its delays and the number of its attempts.
use hymer_connect_ha.Prelude.{
  inr, inl, ℕ, zero, suc, ◌+◌, ◌≤◌, Bool, true, false, not, Option, none, some, List, [], ◌∷◌, ◌≡◌,
  refl, arith, All, length, ◌==◌, if◌then◌else◌, Bool-cases,
}
use hymer_connect_ha.Coordinator.{
  Session, Coordinator, Ended, started, api_failed, other_failed, Start, Round, is_up,
  cancel_reconnect_task, stop_signalr_locked, drop_client, count_failure, after_start, start_client,
  replace_client, start_signalr, next_delay, reconnect_loop,
}

-- The backoff lies between a second and five minutes.
abbrev pub IsBackedOff : Coordinator → Type 0
IsBackedOff c = (1 ≤ c.reconnect_backoff) × (c.reconnect_backoff ≤ 300)

choice-IsBackedOff :
    (b : Bool) (x y : Bool × Coordinator)
    → IsBackedOff x.1
    → IsBackedOff y.1
    → IsBackedOff (if b then x else y).1
choice-IsBackedOff true x y f g = f
choice-IsBackedOff false x y f g = g

drop_client_backoff :
    (n : ℕ) (s : Option Session) (c : Coordinator)
    → (drop_client n s c).reconnect_backoff ≡ c.reconnect_backoff
unfolding drop_client
drop_client_backoff n none c = refl
drop_client_backoff n (some s) c = elim (Bool-cases (s.generation == n)) [
  | inl e ↦ rw e
  | inr e ↦ rw e
]

count_failure-IsBackedOff : (c : Coordinator) → IsBackedOff c → IsBackedOff (count_failure c)
unfolding count_failure
count_failure-IsBackedOff c h = ground arith

after_start-IsBackedOff :
    (n : ℕ) (e : Ended) (c : Coordinator) → IsBackedOff c → IsBackedOff (after_start n e c).1
unfolding after_start
after_start-IsBackedOff n (started up) c h = (omega arith, omega arith)
after_start-IsBackedOff n api_failed c h =
    count_failure-IsBackedOff _ (rw (drop_client_backoff n c.signalr c) h)
after_start-IsBackedOff n other_failed c h = rw (drop_client_backoff n c.signalr c) h

start_client-IsBackedOff :
    (s : Start)
    → ((c : Coordinator) → IsBackedOff c → IsBackedOff (s.meanwhile c))
    → (c : Coordinator) → IsBackedOff c
    → IsBackedOff (start_client s c).1
unfolding start_client
start_client-IsBackedOff s keeps c h = after_start-IsBackedOff _ s.ended _ (keeps _ h)

stop_backoff :
    (b : Bool) (c : Coordinator) → (stop_signalr_locked b c).reconnect_backoff ≡ c.reconnect_backoff
unfolding stop_signalr_locked cancel_reconnect_task
stop_backoff true c = refl
stop_backoff false c = refl

replace_client-IsBackedOff :
    (b : Bool) (s : Start)
    → ((c : Coordinator) → IsBackedOff c → IsBackedOff (s.meanwhile c))
    → (found : Option Session) (c : Coordinator) → IsBackedOff c
    → IsBackedOff (replace_client b s found c).1
unfolding replace_client
replace_client-IsBackedOff b s keeps none c h = start_client-IsBackedOff s keeps c h
replace_client-IsBackedOff b s keeps (some old) c h =
    let stopped : IsBackedOff (stop_signalr_locked b c) = rw (stop_backoff b c) h in
    choice-IsBackedOff old.is_connected _ _ h (
      choice-IsBackedOff s.stop_raises _ _ stopped
        (start_client-IsBackedOff s keeps (stop_signalr_locked b c) stopped))

start_signalr-IsBackedOff :
    (b : Bool) (s : Start)
    → ((c : Coordinator) → IsBackedOff c → IsBackedOff (s.meanwhile c))
    → (c : Coordinator) → IsBackedOff c
    → IsBackedOff (start_signalr b s c).1
unfolding start_signalr
start_signalr-IsBackedOff b s keeps c h = choice-IsBackedOff c.shutting_down _ _ h (
    choice-IsBackedOff (not c.has_scu) _ _ h (
      replace_client-IsBackedOff b s keeps c.signalr
        (record c { suppress_connection_lost_refresh = false }) h))

-- The other tasks keep the backoff within its bounds.
pub record RoundIsBackedOff (round : Round) : Type 0 where
  pub asleep : (c : Coordinator) → IsBackedOff c → IsBackedOff (round.asleep c)
  pub meanwhile : (c : Coordinator) → IsBackedOff c → IsBackedOff (round.start.meanwhile c)

abbrev IsDelay : ℕ → Type 0
IsDelay delay = (1 ≤ delay) × (delay ≤ 300)

-- The choice between the ways to leave a round.
pub leave :
    (m : ℕ) (suppressed asleep up : Bool) (delay : ℕ) (delays : List ℕ) (c slept c' d : Coordinator)
    → IsDelay delay
    → All IsDelay delays
    → length delays ≤ m
    → let ended : List ℕ × Coordinator =
        if suppressed
        then ([], c)
        else if asleep
        then (delay ∷ [], slept)
        else if up
        then (delay ∷ [], c')
        else (delay ∷ delays, d) in
      All IsDelay ended.0 × (length ended.0 ≤ m + 1)
leave m true asleep up delay delays c slept c' d fits rest short = (tt, omega arith)
leave m false true up delay delays c slept c' d fits rest short = ((fits, tt), omega arith)
leave m false false true delay delays c slept c' d fits rest short = ((fits, tt), omega arith)
leave m false false false delay delays c slept c' d fits rest short = ((fits, rest), omega arith)

-- Where the backoff lies between a second and five minutes, and the other tasks keep it there, the
-- reconnect loop sleeps at most as often as it has attempts left, each time between a second and
-- five minutes, if its first delay is so.
pub reconnect_loop-IsDelay :
    (left delay : ℕ) (rounds : ℕ → Round) (c : Coordinator)
    → ((n : ℕ) → RoundIsBackedOff (rounds n))
    → IsBackedOff c
    → (1 ≤ delay) × (delay ≤ 300)
    → All IsDelay (reconnect_loop left delay rounds c).0
      × (length (reconnect_loop left delay rounds c).0 ≤ left)
unfolding reconnect_loop
reconnect_loop-IsDelay zero delay rounds c safe h fits = (tt, omega arith)
reconnect_loop-IsDelay (suc left) delay rounds c safe h fits =
    let slept = (rounds left).asleep c in
    let c' = (start_signalr true (rounds left).start slept).1 in
    let kept =
      start_signalr-IsBackedOff true (rounds left).start (safe left).meanwhile slept
        ((safe left).asleep c h) in
    let (rest, short) =
      reconnect_loop-IsDelay left (next_delay delay c') rounds c' safe kept
        (unfold next_delay in ground arith) in
    let (fine, shorter) =
      leave left c.suppress_connection_lost_refresh slept.suppress_connection_lost_refresh
        (is_up c'.signalr) delay _ c slept c' _ fits rest short in
    (fine, omega arith)
