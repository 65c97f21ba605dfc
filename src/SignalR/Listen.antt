-- ===== src/SignalR/Listen.antt =====
-- connect, listen, start and stop of signalr_client.py. The socket gives a list of arrivals, and the
-- other tasks act between them. `loads` is json.loads, none where it raises; `is_space` tells what
-- `strip` takes off. The addresses and headers of the negotiation are not modelled.
use hymer_connect_ha.Prelude.{
  ℕ, Bool, true, false, Option, none, some, List, [], ◌∷◌, ◌++◌, ◌==◌, if◌then◌else◌,
}
use hymer_connect_ha.Prelude.Dict.{Dict}
use hymer_connect_ha.Pia.Envelopes.{ResponseMessage}
use hymer_connect_ha.SignalR.Refresh.{is_missing}
use hymer_connect_ha.SignalR.{
  Failure, api_error, exception, Heap, settle_undone, missing, Task, idle, active, finished,
  Pending, Client, Write, Reply, returned, raised, was_cancelled, connect, notify_connection_lost,
}
use hymer_connect_ha.SignalR.Json.{
  Json, null, bool, num, other_number, str, arr, obj, Fields, member, is_num,
}

-- What the socket delivers; a write error is that of the answer to a ping.
pub data Arrival (Value : Type 0) : Type 0 where
  text : List ℕ → Write Value → Arrival Value
  socket_closed socket_error unknown broken : Arrival Value
  others : (Client Value → Client Value) → Arrival Value

-- The texts between the separators 0x1e; `part` is the text read so far.
unfoldable pub split_records : List ℕ → List ℕ → List (List ℕ)
split_records part [] = part ∷ []
split_records part (c ∷ chars) =
    let next = part ∷ split_records [] chars in
    let same = split_records (part ++ (c ∷ [])) chars in if c == 0x1e then next else same

module _ (is_space : ℕ → Bool) where
  unfoldable pub strip_left : List ℕ → List ℕ
  strip_left [] = []
  strip_left (c ∷ chars) = if is_space c then strip_left chars else c ∷ chars

  unfoldable pub strip_right : List ℕ → List ℕ
  strip_right [] = []
  strip_right (c ∷ chars) = elim (strip_right chars) as (λ _. List ℕ) [
    | [] ↦ if is_space c then [] else c ∷ []
    | d ∷ rest ↦ c ∷ d ∷ rest
  ]

  unfoldable pub strip : List ℕ → List ℕ
  strip part = strip_right (strip_left part)

module _ {Value : Type 0} (is_space : ℕ → Bool) (loads : List ℕ → Option Json)
    (handle_message : Fields → Client Value → Client Value) where
  -- A ping is answered, any other message is handled; the flag is false where an exception ends the
  -- loop. A value that is no object has no `get`.
  unfoldable pub handle_part : Write Value → Option Json → Client Value → Bool × Client Value
  handle_part pong (some (obj msg)) c =
      if is_num 6 (member "type" msg)
      then elim pong.write_error as (λ _. Bool × Client Value) [
        | none ↦ (true, pong.meanwhile c)
        | some e ↦ (false, pong.meanwhile c)
      ]
      else (true, handle_message msg c)
  handle_part pong none c = (true, c)
  handle_part pong (some null) c = (false, c)
  handle_part pong (some (bool b)) c = (false, c)
  handle_part pong (some (num n)) c = (false, c)
  handle_part pong (some other_number) c = (false, c)
  handle_part pong (some (str s)) c = (false, c)
  handle_part pong (some (arr items)) c = (false, c)

  unfoldable pub parse_part : Write Value → List ℕ → Client Value → Bool × Client Value
  parse_part pong [] c = (true, c)
  parse_part pong (char ∷ chars) c = handle_part pong (loads (char ∷ chars)) c

  unfoldable pub handle_parts : Write Value → List (List ℕ) → Client Value → Bool × Client Value
  handle_parts pong [] c = (true, c)
  handle_parts pong (part ∷ parts) c =
      let (fine, c') = parse_part pong (strip is_space part) c in
      let rest = handle_parts pong parts c' in if fine then rest else (false, c')

  unfoldable pub listen_loop : List (Arrival Value) → Client Value → Client Value
  listen_loop [] c = c
  listen_loop (others act ∷ arrivals) c = listen_loop arrivals (act c)
  listen_loop (text raw pong ∷ arrivals) c =
      let (fine, c') = handle_parts pong (split_records [] raw) c in
      let rest = listen_loop arrivals c' in if c.running then (if fine then rest else c') else c
  listen_loop (unknown ∷ arrivals) c =
      let rest = listen_loop arrivals c in if c.running then rest else c
  listen_loop (socket_closed ∷ arrivals) c = c
  listen_loop (socket_error ∷ arrivals) c = c
  listen_loop (broken ∷ arrivals) c = c

-- What the other tasks do while a cancelled task ends, and an exception with which it had ended.
pub record Ending (Value : Type 0) : Type 0 where
  pub meanwhile : Client Value → Client Value
  pub task_error : Option Failure

-- The endings of the token refresh and of the refreshes at a wake and at a standby.
pub record Endings (Value : Type 0) : Type 0 where
  pub token_refresh : Ending Value
  pub standby_wake : Ending Value
  pub standby_entry : Ending Value

unfoldable pub close_completions : Failure → Dict ℕ → Heap Bool → Heap Bool
close_completions e [] h = h
close_completions e ((id, r) ∷ futures) h =
    close_completions e futures (settle_undone r (exception e) h)

unfoldable pub close_requests : Failure → Dict Pending → Heap ResponseMessage → Heap ResponseMessage
close_requests e [] h = h
close_requests e ((id, p) ∷ pending) h =
    close_requests e pending (settle_undone p.future (exception e) h)

module _ {Value : Type 0} where
  -- A reference to a task is awaited and dropped, `drop` being the assignment of None.
  unfoldable pub end_task :
      (Client Value → Client Value)
      → Ending Value
      → Task
      → Client Value
      → Option Failure × Client Value
  end_task drop ending idle c = (none, c)
  end_task drop ending (active n) c = (ending.task_error, drop (ending.meanwhile c))
  end_task drop ending (finished n) c = (ending.task_error, drop (ending.meanwhile c))

  unfoldable pub drop_token_refresh : Client Value → Client Value
  drop_token_refresh c = record c { token_refresh_task = idle }

  unfoldable pub drop_standby_wake : Client Value → Client Value
  drop_standby_wake c = record c { standby_wake_refresh_task = idle }

  unfoldable pub drop_standby_entry : Client Value → Client Value
  drop_standby_entry c = record c { standby_entry_refresh_task = idle }

  -- Everything that waits is settled, and the coordinator is told.
  unfoldable pub release : Client Value → Client Value
  release c = notify_connection_lost (record c {
    completions = close_completions api_error c.completion_futures c.completions;
    completion_futures = [];
    responses = close_requests api_error c.pending_requests c.responses;
    pending_requests = [];
    waiting_request_ids = [];
  })

  -- An exception of an awaited task leaves the rest of the `finally` block out.
  unfoldable pub and_then :
      Option Failure × Client Value
      → (Client Value → Option Failure × Client Value)
      → Option Failure × Client Value
  and_then (none, c) next = next c
  and_then (some e, c) next = (some e, c)

  unfoldable pub cancel_tasks : Endings Value → Client Value → Option Failure × Client Value
  cancel_tasks endings c =
      and_then (end_task drop_token_refresh endings.token_refresh c.token_refresh_task c) (λ c1.
        and_then (end_task drop_standby_wake endings.standby_wake c1.standby_wake_refresh_task c1)
          (λ c2.
            end_task drop_standby_entry endings.standby_entry c2.standby_entry_refresh_task c2))

  -- The `finally` block of `listen`.
  unfoldable pub cleanup : Endings Value → Client Value → Option Failure × Client Value
  cleanup endings c =
      and_then (cancel_tasks endings (record c { is_connected = false; running = false }))
        (λ c'. (none, release c'))

  -- `listen`; without a socket it returns at once.
  unfoldable pub listen :
      (is_space : ℕ → Bool)
      → (List ℕ → Option Json)
      → (Fields → Client Value → Client Value)
      → List (Arrival Value)
      → Endings Value
      → Client Value
      → Option Failure × Client Value
  listen is_space loads handle arrivals endings c =
      if is_missing c.ws
      then (none, c)
      else cleanup endings
          (listen_loop is_space loads handle arrivals (record c { running = true }))

  -- As `end_task`, but only a task in flight is awaited; the reference is dropped in any case, unless
  -- the await raises.
  unfoldable pub stop_task :
      (Client Value → Client Value)
      → Ending Value
      → Task
      → Client Value
      → Option Failure × Client Value
  stop_task drop ending idle c = (none, drop c)
  stop_task drop ending (finished n) c = (none, drop c)
  stop_task drop ending (active n) c = elim ending.task_error [
    | none ↦ (none, drop (ending.meanwhile c))
    | some e ↦ (some e, ending.meanwhile c)
  ]

  -- What the other tasks, the listener among them, do while the socket is closed and the listener ends.
  unfoldable pub close_socket : Ending Value → Client Value → Option Failure × Client Value
  close_socket ending c =
      let c' = ending.meanwhile c in
      elim ending.task_error as (λ _. Option Failure × Client Value) [
        | none ↦ (none, record c' { is_connected = false; ws = missing })
        | some e ↦ (some e, c')
      ]

  unfoldable pub stop : Endings Value → Ending Value → Client Value → Option Failure × Client Value
  stop endings closing c =
      let c0 = record c { running = false } in
      and_then (stop_task drop_token_refresh endings.token_refresh c0.token_refresh_task c0) (λ c1.
        and_then (stop_task drop_standby_wake endings.standby_wake c1.standby_wake_refresh_task c1)
          (λ c2.
            and_then
              (stop_task drop_standby_entry endings.standby_entry c2.standby_entry_refresh_task c2)
              (close_socket closing)))

  -- After a `connect`: the listener is created, the tokens are updated and the subscriptions sent,
  -- `update` and `subscribe` being those two; an exception stops the client and is raised.
  unfoldable pub subscribe_or_fail :
      (Client Value → Reply × Client Value) → Reply × Client Value → Reply × Client Value
  subscribe_or_fail subscribe (returned true, c) = subscribe c
  subscribe_or_fail subscribe (returned false, c) = (raised api_error, c)
  subscribe_or_fail subscribe (raised e, c) = (raised e, c)
  subscribe_or_fail subscribe (was_cancelled, c) = (was_cancelled, c)

  unfoldable pub raise_after_stop : Failure → Option Failure × Client Value → Reply × Client Value
  raise_after_stop e (none, c) = (raised e, c)
  raise_after_stop e (some e', c) = (raised e', c)

  unfoldable pub stop_on_error :
      Endings Value → Ending Value → Reply × Client Value → Reply × Client Value
  stop_on_error endings closing (returned b, c) = (returned b, c)
  stop_on_error endings closing (was_cancelled, c) = (was_cancelled, c)
  stop_on_error endings closing (raised e, c) = raise_after_stop e (stop endings closing c)

  unfoldable pub start :
      (update subscribe : Client Value → Reply × Client Value)
      → Endings Value
      → Ending Value
      → Client Value
      → Reply × Client Value
  start update subscribe endings closing c =
      stop_on_error endings closing
        (subscribe_or_fail subscribe (update (record (connect c) { running = true })))
