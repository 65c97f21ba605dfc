-- ===== src/SignalR/Safety/Listen.antt =====
-- listen and its cleanup of signalr_client.py are safe, if the other tasks are.
use hymer_connect_ha.Prelude.{ℕ, Bool, true, false, Option, none, some, List, [], ◌∷◌, refl}
use hymer_connect_ha.Prelude.Dict.{Dict}
use hymer_connect_ha.Pia.Envelopes.{ResponseMessage}
use hymer_connect_ha.SignalR.{
  Failure, api_error, exception, Heap, Pending, Client, Write, Task, idle, active, finished,
}
use hymer_connect_ha.SignalR.Json.{
  Json, null, bool, num, other_number, str, arr, obj, Fields, member, is_num,
}
use hymer_connect_ha.SignalR.Refresh.{is_missing}
use hymer_connect_ha.SignalR.Listen.{
  Arrival, text, socket_closed, socket_error, unknown, broken, others, Ending, Endings, strip,
  split_records, handle_part, parse_part, handle_parts, listen_loop, end_task, drop_token_refresh,
  drop_standby_wake, drop_standby_entry, close_completions, close_requests, release, and_then,
  cancel_tasks, cleanup, listen,
}
use hymer_connect_ha.SignalR.Core.{
  core, Kept, Kept-refl, Kept-trans, settle_undone-Kept, Fine-trans, clear-Fine, responses-Fine,
  completions-Fine,
}
use hymer_connect_ha.SignalR.Safety.{
  Safe, IsSafe, Safe-refl, Safe-trans, Safe-core, Safe-if, Safe-if_snd, notify_connection_lost-Safe,
}

-- What the other tasks do between arrivals, and at the answer to a ping.
pub data ArrivalIsSafe {Value : Type 0} : Arrival Value → Type 0 where
  text_safe :
      {raw : List ℕ} {pong : Write Value} → IsSafe pong.meanwhile → ArrivalIsSafe (text raw pong)
  closed_safe : ArrivalIsSafe socket_closed
  error_safe : ArrivalIsSafe socket_error
  unknown_safe : ArrivalIsSafe unknown
  broken_safe : ArrivalIsSafe broken
  others_safe : {act : Client Value → Client Value} → IsSafe act → ArrivalIsSafe (others act)

pub data AllSafe {Value : Type 0} : List (Arrival Value) → Type 0 where
  none_left : AllSafe []
  one_more :
      {arrival : Arrival Value} {arrivals : List (Arrival Value)}
      → ArrivalIsSafe arrival
      → AllSafe arrivals
      → AllSafe (arrival ∷ arrivals)

pub record EndingsAreSafe {Value : Type 0} (endings : Endings Value) : Type 0 where
  pub token_refresh : IsSafe endings.token_refresh.meanwhile
  pub standby_wake : IsSafe endings.standby_wake.meanwhile
  pub standby_entry : IsSafe endings.standby_entry.meanwhile

module _ {Value : Type 0} (is_space : ℕ → Bool) (loads : List ℕ → Option Json)
    (handle : Fields → Client Value → Client Value)
    (handled : (msg : Fields) → IsSafe (handle msg)) where
  ponged-Safe :
      (e : Option Failure) (c : Client Value)
      → Safe c (elim e as (λ _. Bool × Client Value) [ none ↦ (true, c) | some x ↦ (false, c) ]).1
  ponged-Safe none c = Safe-refl c
  ponged-Safe (some x) c = Safe-refl c

  handle_part-Safe :
      (pong : Write Value)
      → IsSafe pong.meanwhile
      → (parsed : Option Json) (c : Client Value)
      → Safe c (handle_part is_space loads handle pong parsed c).1
  unfolding handle_part
  handle_part-Safe pong acts (some (obj msg)) c =
      Safe-if_snd (is_num 6 (member "type" msg)) _ _
        (Safe-trans (acts c) (ponged-Safe pong.write_error (pong.meanwhile c))) (handled msg c)
  handle_part-Safe pong acts none c = Safe-refl c
  handle_part-Safe pong acts (some null) c = Safe-refl c
  handle_part-Safe pong acts (some (bool b)) c = Safe-refl c
  handle_part-Safe pong acts (some (num n)) c = Safe-refl c
  handle_part-Safe pong acts (some other_number) c = Safe-refl c
  handle_part-Safe pong acts (some (str s)) c = Safe-refl c
  handle_part-Safe pong acts (some (arr items)) c = Safe-refl c

  parse_part-Safe :
      (pong : Write Value)
      → IsSafe pong.meanwhile
      → (part : List ℕ) (c : Client Value) → Safe c (parse_part is_space loads handle pong part c).1
  unfolding parse_part
  parse_part-Safe pong acts [] c = Safe-refl c
  parse_part-Safe pong acts (char ∷ chars) c = handle_part-Safe pong acts _ c

  handle_parts-Safe :
      (pong : Write Value)
      → IsSafe pong.meanwhile
      → (parts : List (List ℕ)) (c : Client Value)
      → Safe c (handle_parts is_space loads handle pong parts c).1
  unfolding handle_parts
  handle_parts-Safe pong acts [] c = Safe-refl c
  handle_parts-Safe pong acts (part ∷ parts) c =
      let (fine, c') = parse_part is_space loads handle pong (strip is_space part) c in
      Safe-trans (parse_part-Safe pong acts (strip is_space part) c)
        (Safe-if_snd fine _ _ (handle_parts-Safe pong acts parts c') (Safe-refl c'))

  pub listen_loop-Safe :
      {arrivals : List (Arrival Value)}
      → AllSafe arrivals
      → IsSafe (listen_loop is_space loads handle arrivals)
  unfolding listen_loop
  listen_loop-Safe none_left c = Safe-refl c
  listen_loop-Safe (one_more (others_safe act) rest) c =
      Safe-trans (act c) (listen_loop-Safe rest _)
  listen_loop-Safe (one_more (text_safe {raw} {pong} acts) rest) c =
      let (fine, c') = handle_parts is_space loads handle pong (split_records [] raw) c in
      let next = listen_loop-Safe rest in
      Safe-if c.running
        (Safe-trans (handle_parts-Safe pong acts (split_records [] raw) c)
          (Safe-if fine (next c') (Safe-refl c')))
        (Safe-refl c)
  listen_loop-Safe (one_more unknown_safe rest) c =
      let next = listen_loop-Safe rest in Safe-if c.running (next c) (Safe-refl c)
  listen_loop-Safe (one_more closed_safe rest) c = Safe-refl c
  listen_loop-Safe (one_more error_safe rest) c = Safe-refl c
  listen_loop-Safe (one_more broken_safe rest) c = Safe-refl c

close_completions-Kept :
    (e : Failure) (futures : Dict ℕ) (h : Heap Bool) → Kept h (close_completions e futures h)
unfolding close_completions
close_completions-Kept e [] h = Kept-refl h
close_completions-Kept e ((id, r) ∷ futures) h =
    Kept-trans _ _ _ (settle_undone-Kept r (exception e) h) (close_completions-Kept e futures _)

close_requests-Kept :
    (e : Failure) (pending : Dict Pending) (h : Heap ResponseMessage)
    → Kept h (close_requests e pending h)
unfolding close_requests
close_requests-Kept e [] h = Kept-refl h
close_requests-Kept e ((id, p) ∷ pending) h =
    Kept-trans _ _ _ (settle_undone-Kept p.future (exception e) h) (close_requests-Kept e pending _)

module _ {Value : Type 0} where
  pub release-Safe : IsSafe {Value = Value} release
  unfolding release
  release-Safe c =
      let h = close_requests api_error c.pending_requests c.responses in
      let g = close_completions api_error c.completion_futures c.completions in
      Safe-trans
        {d = record c {
          completions = g;
          completion_futures = [];
          responses = h;
          pending_requests = [];
          waiting_request_ids = [];
        }}
        (record {
          fine = Fine-trans (core c) _ _ (clear-Fine (core c)) (
              Fine-trans _ _ _
                (responses-Fine (record (core c) { pending = []; completion_futures = [] }) h
                  (close_requests-Kept api_error c.pending_requests c.responses))
                (completions-Fine
                  (record (core c) { pending = []; completion_futures = []; responses = h }) g
                  (close_completions-Kept api_error c.completion_futures c.completions)));
        })
        (notify_connection_lost-Safe _)

  pub and_then-Safe :
      {c : Client Value} (ended : Option Failure × Client Value)
      (next : Client Value → Option Failure × Client Value)
      → Safe c ended.1
      → ((d : Client Value) → Safe d (next d).1)
      → Safe c (and_then ended next).1
  unfolding and_then
  and_then-Safe (none, d) next before after = Safe-trans before (after d)
  and_then-Safe (some e, d) next before after = before

  end_task-Safe :
      (drop : Client Value → Client Value) (ending : Ending Value)
      → IsSafe drop
      → IsSafe ending.meanwhile
      → (task : Task) (c : Client Value) → Safe c (end_task drop ending task c).1
  unfolding end_task
  end_task-Safe drop ending drops acts idle c = Safe-refl c
  end_task-Safe drop ending drops acts (active n) c = Safe-trans (acts c) (drops _)
  end_task-Safe drop ending drops acts (finished n) c = Safe-trans (acts c) (drops _)

  pub drop_token_refresh-Safe : IsSafe {Value = Value} drop_token_refresh
  unfolding drop_token_refresh
  drop_token_refresh-Safe c = Safe-core refl

  pub drop_standby_wake-Safe : IsSafe {Value = Value} drop_standby_wake
  unfolding drop_standby_wake
  drop_standby_wake-Safe c = Safe-core refl

  pub drop_standby_entry-Safe : IsSafe {Value = Value} drop_standby_entry
  unfolding drop_standby_entry
  drop_standby_entry-Safe c = Safe-core refl

  cancel_tasks-Safe :
      (endings : Endings Value)
      → EndingsAreSafe endings
      → (c : Client Value) → Safe c (cancel_tasks endings c).1
  unfolding cancel_tasks
  cancel_tasks-Safe endings acts c =
      and_then-Safe _ _ (end_task-Safe _ _ drop_token_refresh-Safe acts.token_refresh _ c) (λ c1.
        and_then-Safe _ _ (end_task-Safe _ _ drop_standby_wake-Safe acts.standby_wake _ c1)
          (λ c2. end_task-Safe _ _ drop_standby_entry-Safe acts.standby_entry _ c2))

  pub cleanup-Safe :
      (endings : Endings Value)
      → EndingsAreSafe endings
      → (c : Client Value) → Safe c (cleanup endings c).1
  unfolding cleanup
  cleanup-Safe endings acts c =
      and_then-Safe _ _
        (Safe-trans {d = record c { is_connected = false; running = false }} (Safe-core refl)
          (cancel_tasks-Safe endings acts _))
        (λ d. release-Safe d)

  pub listen-Safe :
      (is_space : ℕ → Bool) (loads : List ℕ → Option Json)
      (handle : Fields → Client Value → Client Value)
      → ((msg : Fields) → IsSafe (handle msg))
      → {arrivals : List (Arrival Value)} → AllSafe arrivals
      → (endings : Endings Value) → EndingsAreSafe endings
      → (c : Client Value) → Safe c (listen is_space loads handle arrivals endings c).1
  unfolding listen
  listen-Safe is_space loads handle handled arriving endings acts c =
      Safe-if_snd (is_missing c.ws) _ _ (Safe-refl c) (
        Safe-trans {d = record c { running = true }} (Safe-core refl) (
          Safe-trans (listen_loop-Safe is_space loads handle handled arriving _)
            (cleanup-Safe endings acts _)))
