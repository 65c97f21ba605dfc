-- ===== src/Coordinator/Stale.antt =====
-- The reconnect loop of coordinator.py where it starts over a client that has lost its connection.
use hymer_connect_ha.Prelude.{
  ◌∙◌, inr, inl, ℕ, zero, suc, Bool, true, false, Option, none, some, List, [], ◌∷◌, ◌≡◌, refl,
  ◌==◌, if◌then◌else◌, Bool-cases,
}
use hymer_connect_ha.Coordinator.{
  Session, Coordinator, Ended, started, api_failed, other_failed, Start, Round, is_up,
  stop_signalr_locked, drop_client, count_failure, set_connected, after_start, start_client,
  replace_client, start_signalr, next_delay, reconnect_loop,
}

-- Other tasks that leave the suppression alone.
abbrev pub KeepsSuppression : (Coordinator → Coordinator) → Type 0
KeepsSuppression act =
    (c : Coordinator)
    → (act c).suppress_connection_lost_refresh ≡ c.suppress_connection_lost_refresh

drop_client-KeepsSuppression : (n : ℕ) (s : Option Session) → KeepsSuppression (drop_client n s)
unfolding drop_client
drop_client-KeepsSuppression n none c = refl
drop_client-KeepsSuppression n (some s) c = elim (Bool-cases (s.generation == n)) [
  | inl e ↦ rw e
  | inr e ↦ rw e
]

set_connected-KeepsSuppression :
    (n : ℕ) (up : Bool) (s : Option Session) → KeepsSuppression (set_connected n up s)
unfolding set_connected
set_connected-KeepsSuppression n up none c = refl
set_connected-KeepsSuppression n up (some s) c = elim (Bool-cases (s.generation == n)) [
  | inl e ↦ rw e
  | inr e ↦ rw e
]

after_start_suppression :
    (n : ℕ) (e : Ended) (c : Coordinator)
    → (after_start n e c).1.suppress_connection_lost_refresh ≡ c.suppress_connection_lost_refresh
unfolding after_start count_failure
after_start_suppression n (started up) c = set_connected-KeepsSuppression n up c.signalr c
after_start_suppression n api_failed c = drop_client-KeepsSuppression n c.signalr c
after_start_suppression n other_failed c = drop_client-KeepsSuppression n c.signalr c

stopped_is_suppressed :
    (b : Bool) (c : Coordinator) → (stop_signalr_locked b c).suppress_connection_lost_refresh ≡ true
unfolding stop_signalr_locked
stopped_is_suppressed b c = refl

start_client_suppression :
    (s : Start)
    → KeepsSuppression s.meanwhile
    → (c : Coordinator)
    → (start_client s c).1.suppress_connection_lost_refresh ≡ c.suppress_connection_lost_refresh
unfolding start_client
start_client_suppression s keeps c = after_start_suppression _ s.ended _ ∙ keeps _

chosen_suppression :
    (b : Bool) (x y : Bool × Coordinator)
    → x.1.suppress_connection_lost_refresh ≡ true
    → y.1.suppress_connection_lost_refresh ≡ true
    → (if b then x else y).1.suppress_connection_lost_refresh ≡ true
chosen_suppression true x y f g = f
chosen_suppression false x y f g = g

replaced_is_suppressed :
    (b : Bool) (s : Start)
    → KeepsSuppression s.meanwhile
    → (old : Session) (c : Coordinator) → old.is_connected ≡ false
    → (replace_client b s (some old) c).1.suppress_connection_lost_refresh ≡ true
unfolding replace_client
replaced_is_suppressed b s keeps old c down = rw down (
    chosen_suppression s.stop_raises _ _ (stopped_is_suppressed b c)
      (start_client_suppression s keeps (stop_signalr_locked b c) ∙ stopped_is_suppressed b c))

start_signalr_stale :
    (b : Bool) (s : Start)
    → KeepsSuppression s.meanwhile
    → (old : Session) (c : Coordinator) → c.shutting_down ≡ false
    → c.has_scu ≡ true
    → c.signalr ≡ some old
    → old.is_connected ≡ false
    → (start_signalr b s c).1.suppress_connection_lost_refresh ≡ true
unfolding start_signalr
start_signalr_stale b s keeps old c up scu stale down =
    let replaced = replaced_is_suppressed b s keeps old _ down in rw (up, scu, stale) replaced

suppressed_loop :
    (left delay : ℕ) (rounds : ℕ → Round) (c : Coordinator)
    → c.suppress_connection_lost_refresh ≡ true
    → reconnect_loop left delay rounds c ≡ ([], c)
unfolding reconnect_loop
suppressed_loop zero delay rounds c e = refl
suppressed_loop (suc left) delay rounds c e = rw e

-- The ways to leave a round in which the client was started.
left_after :
    (calm quiet up : Bool) (delay : ℕ) (c slept c' : Coordinator) (rest : List ℕ × Coordinator)
    → calm ≡ false
    → quiet ≡ false
    → c'.suppress_connection_lost_refresh ≡ true
    → rest ≡ ([], c')
    → let ended : List ℕ × Coordinator =
        if calm
        then ([], c)
        else if quiet
        then (delay ∷ [], slept)
        else if up
        then (delay ∷ [], c')
        else (delay ∷ rest.0, rest.1) in
      (ended.0 ≡ delay ∷ []) × (ended.1.suppress_connection_lost_refresh ≡ true)
left_after true quiet up delay c slept c' rest e f suppressed g = absurd (cc)
left_after false true up delay c slept c' rest e f suppressed g = absurd (cc)
left_after false false true delay c slept c' rest e f suppressed g = (refl, suppressed)
left_after false false false delay c slept c' rest e f suppressed g = (rw g, rw g suppressed)

-- Where the loop and its connection are not suppressed or shut down, and its first attempt finds a
-- client that has lost its connection, the loop makes no second attempt, however that attempt ends,
-- and leaves the handling of a lost connection suppressed, if the other tasks leave that flag
-- alone.
pub reconnect_loop_stale :
    (left delay : ℕ) (rounds : ℕ → Round) (c : Coordinator) (old : Session)
    → KeepsSuppression (rounds left).start.meanwhile
    → c.suppress_connection_lost_refresh ≡ false
    → ((rounds left).asleep c).suppress_connection_lost_refresh ≡ false
    → ((rounds left).asleep c).shutting_down ≡ false
    → ((rounds left).asleep c).has_scu ≡ true
    → ((rounds left).asleep c).signalr ≡ some old
    → old.is_connected ≡ false
    → ((reconnect_loop (suc left) delay rounds c).0 ≡ delay ∷ [])
      × ((reconnect_loop (suc left) delay rounds c).1.suppress_connection_lost_refresh ≡ true)
unfolding reconnect_loop
reconnect_loop_stale left delay rounds c old keeps calm quiet up scu stale down =
    let slept = (rounds left).asleep c in
    let c' = (start_signalr true (rounds left).start slept).1 in
    let suppressed =
      start_signalr_stale true (rounds left).start keeps old slept up scu stale down in
    left_after c.suppress_connection_lost_refresh slept.suppress_connection_lost_refresh
      (is_up c'.signalr) delay c slept c' (reconnect_loop left (next_delay delay c') rounds c') calm
      quiet suppressed (suppressed_loop left (next_delay delay c') rounds c' suppressed)
