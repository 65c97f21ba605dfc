-- ===== src/SignalR/Safety/Stop.antt =====
-- stop and start of signalr_client.py are safe, if the other tasks are.
use hymer_connect_ha.Prelude.{true, false, Option, none, some, refl}
use hymer_connect_ha.SignalR.{
  missing, Failure, Client, Reply, returned, raised, was_cancelled, connect, Task, idle, active,
  finished,
}
use hymer_connect_ha.SignalR.Listen.{
  Ending, Endings, stop_task, close_socket, stop, subscribe_or_fail, raise_after_stop,
  stop_on_error, start,
}
use hymer_connect_ha.SignalR.Safety.{Safe, IsSafe, Safe-refl, Safe-trans, Safe-core}
use hymer_connect_ha.SignalR.Safety.Listen.{
  EndingsAreSafe, and_then-Safe, drop_standby_entry-Safe, drop_standby_wake-Safe,
  drop_token_refresh-Safe,
}

module _ {Value : Type 0} where
  stopped-Safe :
      (drop : Client Value → Client Value)
      → IsSafe drop
      → (e : Option Failure) (c : Client Value)
      → Safe c
          (elim e as (λ _. Option Failure × Client Value) [
            | none ↦ (none, drop c)
            | some x ↦ (some x, c)
          ]).1
  stopped-Safe drop drops none c = drops c
  stopped-Safe drop drops (some x) c = Safe-refl c

  stop_task-Safe :
      (drop : Client Value → Client Value) (ending : Ending Value)
      → IsSafe drop
      → IsSafe ending.meanwhile
      → (task : Task) (c : Client Value) → Safe c (stop_task drop ending task c).1
  unfolding stop_task
  stop_task-Safe drop ending drops acts idle c = drops c
  stop_task-Safe drop ending drops acts (finished n) c = drops c
  stop_task-Safe drop ending drops acts (active n) c =
      Safe-trans (acts c) (stopped-Safe drop drops ending.task_error (ending.meanwhile c))

  close_socket-Safe :
      (closing : Ending Value)
      → IsSafe closing.meanwhile
      → (c : Client Value) → Safe c (close_socket closing c).1
  unfolding close_socket
  close_socket-Safe closing acts c = Safe-trans (acts c) (
      stopped-Safe (λ c'. record c' { is_connected = false; ws = missing }) (λ d. Safe-core refl)
        closing.task_error (closing.meanwhile c))

  pub stop-Safe :
      (endings : Endings Value) (closing : Ending Value)
      → EndingsAreSafe endings
      → IsSafe closing.meanwhile
      → (c : Client Value) → Safe c (stop endings closing c).1
  unfolding stop
  stop-Safe endings closing acts closes c =
      and_then-Safe _ _
        (Safe-trans {d = record c { running = false }} (Safe-core refl)
          (stop_task-Safe _ _ drop_token_refresh-Safe acts.token_refresh _ _))
        (λ c1.
          and_then-Safe _ _ (stop_task-Safe _ _ drop_standby_wake-Safe acts.standby_wake _ c1)
            (λ c2.
              and_then-Safe _ _ (stop_task-Safe _ _ drop_standby_entry-Safe acts.standby_entry _ c2)
                (close_socket-Safe closing closes)))

  subscribe_or_fail-Safe :
      (subscribe : Client Value → Reply × Client Value)
      → ((c : Client Value) → Safe c (subscribe c).1)
      → (updated : Reply × Client Value) → Safe updated.1 (subscribe_or_fail subscribe updated).1
  unfolding subscribe_or_fail
  subscribe_or_fail-Safe subscribe safe (returned true, c) = safe c
  subscribe_or_fail-Safe subscribe safe (returned false, c) = Safe-refl c
  subscribe_or_fail-Safe subscribe safe (raised e, c) = Safe-refl c
  subscribe_or_fail-Safe subscribe safe (was_cancelled, c) = Safe-refl c

  raise_after_stop-Safe :
      {c : Client Value} (e : Failure) (stopped : Option Failure × Client Value)
      → Safe c stopped.1
      → Safe c (raise_after_stop e stopped).1
  unfolding raise_after_stop
  raise_after_stop-Safe e (none, d) safe = safe
  raise_after_stop-Safe e (some x, d) safe = safe

  stop_on_error-Safe :
      (endings : Endings Value) (closing : Ending Value)
      → EndingsAreSafe endings
      → IsSafe closing.meanwhile
      → (ended : Reply × Client Value) → Safe ended.1 (stop_on_error endings closing ended).1
  unfolding stop_on_error
  stop_on_error-Safe endings closing acts closes (returned b, c) = Safe-refl c
  stop_on_error-Safe endings closing acts closes (was_cancelled, c) = Safe-refl c
  stop_on_error-Safe endings closing acts closes (raised e, c) =
      raise_after_stop-Safe e _ (stop-Safe endings closing acts closes c)

  pub start-Safe :
      (update subscribe : Client Value → Reply × Client Value) (endings : Endings Value)
      (closing : Ending Value)
      → ((c : Client Value) → Safe c (update c).1)
      → ((c : Client Value) → Safe c (subscribe c).1)
      → EndingsAreSafe endings
      → IsSafe closing.meanwhile
      → (c : Client Value) → Safe c (start update subscribe endings closing c).1
  unfolding start connect
  start-Safe update subscribe endings closing updates subscribes acts closes c =
      Safe-trans {d = record (connect c) { running = true }} (Safe-core refl) (
        Safe-trans (updates _) (
          Safe-trans (subscribe_or_fail-Safe subscribe subscribes _)
            (stop_on_error-Safe endings closing acts closes _)))
