-- ===== src/Coordinator.antt =====
-- The hub connection of HymerConnectCoordinator, coordinator.py: its lifecycle, the reconnect loop and
-- the connection part of the update cycle. What a start of the client comes to, what stopping it raises
-- and what the other tasks do meanwhile are arguments; the clock is in seconds.
pub mod Commands
pub mod Reconnect
pub mod Sent
pub mod Stale
use hymer_connect_ha.Prelude.{
  ℕ, zero, suc, ◌+◌, ◌-◌, ◌*◌, min, max, Bool, true, false, not, ◌&&◌, Option, none, some, List, [],
  ◌∷◌, ltb, leb, ◌==◌, if◌then◌else◌,
}
use hymer_connect_ha.SignalR.{Task, idle, active, finished, in_flight, clear_task}

abbrev pub initial_backoff : ℕ
initial_backoff = 1

abbrev pub max_backoff : ℕ
max_backoff = 16

abbrev pub max_consecutive_failures : ℕ
max_consecutive_failures = 5

abbrev pub unreachable_backoff : ℕ
unreachable_backoff = 300

abbrev pub reauth_after_failures : ℕ
reauth_after_failures = 10

abbrev pub rapid_drop_threshold : ℕ
rapid_drop_threshold = 30

abbrev pub rapid_drop_cooldown : ℕ
rapid_drop_cooldown = 5

-- A client, by the generation in which it was made.
pub record Session : Type 0 where
  pub generation : ℕ
  pub is_connected : Bool

pub record Coordinator : Type 0 where
  pub has_scu : Bool
  pub signalr : Option Session
  pub reconnect_backoff : ℕ
  pub last_reconnect_attempt : ℕ
  pub signalr_connected_at : ℕ
  pub signalr_generation : ℕ
  pub frame_generation : ℕ
  pub consecutive_failures : ℕ
  pub reconnect_task : Task
  pub suppress_connection_lost_refresh : Bool
  pub shutting_down : Bool
  pub tasks : ℕ  -- created so far

-- How `client.start()` ends: HymerConnectApiError is the failure that is counted.
pub data Ended : Type 0 where
  started : (is_connected : Bool) → Ended
  api_failed other_failed : Ended

-- The start of a client: what the other tasks do during it, and its end. `stop_raises` is for the
-- client that is stopped before.
pub record Start : Type 0 where
  pub now : ℕ
  pub stop_raises : Bool
  pub meanwhile : Coordinator → Coordinator
  pub ended : Ended

unfoldable pub is_up : Option Session → Bool
is_up none = false
is_up (some s) = s.is_connected

unfoldable pub frame_seen_on_current_connection : Coordinator → Bool
frame_seen_on_current_connection c =
    ltb 0 c.signalr_generation && c.frame_generation == c.signalr_generation

-- The task that calls is the loop itself, if `from_loop`.
unfoldable pub cancel_reconnect_task : Bool → Coordinator → Coordinator
cancel_reconnect_task true c = c
cancel_reconnect_task false c = record c { reconnect_task = idle }

unfoldable pub clear_reconnect_task : ℕ → Coordinator → Coordinator
clear_reconnect_task n c = record c { reconnect_task = clear_task n c.reconnect_task }

unfoldable pub mark_shutting_down : Bool → Coordinator → Coordinator
mark_shutting_down from_loop c =
    cancel_reconnect_task from_loop
      (record c { shutting_down = true; suppress_connection_lost_refresh = true })

-- `_stop_signalr_locked`; the client is forgotten also where its stop raises.
unfoldable pub stop_signalr_locked : Bool → Coordinator → Coordinator
unfolding cancel_reconnect_task
stop_signalr_locked from_loop c = record (cancel_reconnect_task from_loop c) {
  suppress_connection_lost_refresh = true;
  signalr = none;
}

-- `if self._signalr is client: self._signalr = None`
unfoldable pub drop_client : ℕ → Option Session → Coordinator → Coordinator
drop_client generation none c = c
drop_client generation (some s) c =
    if s.generation == generation then record c { signalr = none } else c

-- A counted failure doubles the backoff, and from the fifth on it is five minutes.
unfoldable pub count_failure : Coordinator → Coordinator
count_failure c = record c {
  consecutive_failures = c.consecutive_failures + 1;
  reconnect_backoff =
      if leb max_consecutive_failures (c.consecutive_failures + 1)
      then unreachable_backoff
      else min (c.reconnect_backoff * 2) max_backoff;
}

unfoldable pub set_connected : ℕ → Bool → Option Session → Coordinator → Coordinator
set_connected generation up none c = c
set_connected generation up (some s) c =
    if s.generation == generation
    then record c { signalr = some (record { generation = generation; is_connected = up }) }
    else c

-- The flag tells whether an exception is raised.
unfoldable pub after_start : ℕ → Ended → Coordinator → Bool × Coordinator
after_start generation (started up) c =
    let c' = set_connected generation up c.signalr c in
    (false, record c' { reconnect_backoff = initial_backoff; consecutive_failures = 0 })
after_start generation api_failed c = (false, count_failure (drop_client generation c.signalr c))
after_start generation other_failed c = (true, drop_client generation c.signalr c)

-- A new generation is opened, and its client started.
unfoldable pub start_client : Start → Coordinator → Bool × Coordinator
start_client s c =
    let generation = c.signalr_generation + 1 in
    after_start generation s.ended (
      s.meanwhile (record c {
        signalr_generation = generation;
        signalr_connected_at = s.now;
        signalr = some (record { generation = generation; is_connected = false });
      }))

-- The client that is there and not connected is stopped first.
unfoldable pub replace_client : Bool → Start → Option Session → Coordinator → Bool × Coordinator
replace_client from_loop s none c = start_client s c
replace_client from_loop s (some old) c =
    if old.is_connected
    then (false, c)
    else let c' = stop_signalr_locked from_loop c in
      if s.stop_raises then (true, c') else start_client s c'

unfoldable pub start_signalr : Bool → Start → Coordinator → Bool × Coordinator
start_signalr from_loop s c =
    if c.shutting_down
    then (false, c)
    else if not c.has_scu
    then (false, c)
    else replace_client from_loop s c.signalr
        (record c { suppress_connection_lost_refresh = false })

-- `_on_signalr_connection_lost`: the delay of the loop that is started, if one is.
unfoldable pub initial_delay : (now connected_at : ℕ) → ℕ
initial_delay now connected_at =
    if not (connected_at == 0)
      && ltb 0 (now - connected_at)
      && ltb (now - connected_at) rapid_drop_threshold
    then max initial_backoff rapid_drop_cooldown
    else initial_backoff

unfoldable pub on_signalr_connection_lost : ℕ → Coordinator → Option ℕ × Coordinator
on_signalr_connection_lost now c =
    if c.shutting_down
    then (none, c)
    else if c.suppress_connection_lost_refresh
    then (none, c)
    else if in_flight c.reconnect_task
    then (none, c)
    else (
      some (initial_delay now c.signalr_connected_at),
      record c { reconnect_task = active c.tasks; tasks = c.tasks + 1 },
    )

-- A round of the loop: what the other tasks do during the sleep, and the start.
pub record Round : Type 0 where
  pub asleep : Coordinator → Coordinator
  pub start : Start

unfoldable pub next_delay : ℕ → Coordinator → ℕ
next_delay delay c = max (min (delay * 2) max_backoff) c.reconnect_backoff

-- `_reconnect_loop`: `left` attempts remain. The delays that were slept, and the coordinator; an
-- exception of a start is only logged.
unfoldable pub reconnect_loop : (left delay : ℕ) → (ℕ → Round) → Coordinator → List ℕ × Coordinator
reconnect_loop zero delay rounds c = ([], c)
reconnect_loop (suc left) delay rounds c =
    let slept = (rounds left).asleep c in
    let (failed, c') = start_signalr true (rounds left).start slept in
    let (delays, d) = reconnect_loop left (next_delay delay c') rounds c' in
    if c.suppress_connection_lost_refresh
    then ([], c)
    else if slept.suppress_connection_lost_refresh
    then (delay ∷ [], slept)
    else if is_up c'.signalr
    then (delay ∷ [], c')
    else (delay ∷ delays, d)

-- `force_reauth_and_reconnect`; the re-authentication changes nothing here and its failure is logged,
-- `meanwhile` being what the other tasks do during it.
unfoldable pub force_reauth_and_reconnect :
    Bool → (meanwhile : Coordinator → Coordinator) → Start → Coordinator → Bool × Coordinator
force_reauth_and_reconnect stop_raises meanwhile s c =
    let c' = meanwhile (stop_signalr_locked false c) in
    if stop_raises
    then (true, stop_signalr_locked false c)
    else if c'.shutting_down
    then (false, c')
    else start_signalr false s (record c' {
      suppress_connection_lost_refresh = false;
      last_reconnect_attempt = 0;
      reconnect_backoff = initial_backoff;
    })

unfoldable pub wait_between_attempts : Coordinator → ℕ
wait_between_attempts c =
    if leb max_consecutive_failures c.consecutive_failures
    then max c.reconnect_backoff unreachable_backoff
    else c.reconnect_backoff

-- The attempt of the update cycle, `reauth` being the arguments of the re-authentication.
unfoldable pub attempt_connection :
    ℕ → Bool → (Coordinator → Coordinator) → Start → Coordinator → Coordinator
attempt_connection now stop_raises meanwhile s c =
    let c' = record c { last_reconnect_attempt = now } in
    if leb reauth_after_failures c.consecutive_failures
    then (force_reauth_and_reconnect stop_raises meanwhile s c').1
    else (start_signalr false s c').1

-- The connection part of `_async_update_data` for a client that is not connected; an exception is logged.
unfoldable pub update_connection :
    ℕ → Bool → (Coordinator → Coordinator) → Start → Coordinator → Coordinator
update_connection now stop_raises meanwhile s c =
    if in_flight c.reconnect_task
    then c
    else if leb (wait_between_attempts c) (now - c.last_reconnect_attempt)
    then attempt_connection now stop_raises meanwhile s c
    else c
