-- ===== src/SignalR/Interleaving.antt =====
-- Coroutines of the client of signalr_client.py that run nested: what one of them does from its start to
-- its end, where others run from their start to their end wherever it is suspended, and so on.
-- Suspensions that cross, and a cancellation at an await, are not represented.
use hymer_connect_ha.Prelude.{ℕ, Bool, true, Option, List, [], ◌∷◌, refl}
use hymer_connect_ha.Prelude.Int.{ℤ}
use hymer_connect_ha.Pia.Wire.{Floats}
use hymer_connect_ha.Pia.Slots.{SlotValue, KnownSlots}
use hymer_connect_ha.SignalR.{Client, Write, connect}
use hymer_connect_ha.SignalR.Json.{Json, Fields}
use hymer_connect_ha.SignalR.Messages.{handle_message}
use hymer_connect_ha.SignalR.Requests.{Send, send_pia_request, send_initial_subscriptions}
use hymer_connect_ha.SignalR.Refresh.{
  TokenUpdate, TokenRefresh, send_update_tokens, refresh_and_retry, run_standby_entry_refresh,
  run_standby_wake_refresh, send_refresh,
}
use hymer_connect_ha.SignalR.Listen.{
  Arrival, text, socket_closed, socket_error, unknown, broken, others, Ending, Endings, listen,
  stop,
}
use hymer_connect_ha.SignalR.Core.{core, Inv, Kept}
use hymer_connect_ha.SignalR.Safety.{IsSafe, Safe-refl, Safe-trans, Safe-core}
use hymer_connect_ha.SignalR.Safety.Messages.{handle_message-Safe}
use hymer_connect_ha.SignalR.Safety.Requests.{
  SendIsSafe, send_pia_request-Safe, subscribe_from-Safe,
}
use hymer_connect_ha.SignalR.Safety.Refresh.{
  refresh_and_retry-Safe, run_standby_entry_refresh-Safe, run_standby_wake_refresh-Safe,
  send_refresh-Safe,
}
use hymer_connect_ha.SignalR.Safety.Update.{UpdateIsSafe, send_update_tokens-Safe}
use hymer_connect_ha.SignalR.Safety.Listen.{
  AllSafe, text_safe, closed_safe, error_safe, unknown_safe, broken_safe, others_safe, none_left,
  one_more, listen-Safe,
}
use hymer_connect_ha.SignalR.Safety.Stop.{stop-Safe}

module _ (floats : Floats) (is_printable : ℕ → Bool) (known : KnownSlots floats is_printable)
    (b64encode : List ℕ → List ℕ) (b64decode : List ℕ → Option (List ℕ)) (switches : List (ℕ × ℕ))
    (upper : List ℕ → List ℕ) (is_space : ℕ → Bool) (loads : List ℕ → Option Json)
    (publish : List ((ℕ × ℕ) × SlotValue floats is_printable) → Bool) (now : ℕ) where
  abbrev pub SlotClient : Type 0
  SlotClient = Client (SlotValue floats is_printable)

  abbrev pub handler : Fields → SlotClient → SlotClient
  handler = handle_message floats is_printable known b64decode switches upper publish now

  -- What the other tasks may do: nothing, one thing after another, or a whole coroutine of the client.
  mutual
    pub data Acts : (SlotClient → SlotClient) → Type 0 where
      rest : Acts (λ c. c)
      follow : {f g : SlotClient → SlotClient} → Acts f → Acts g → Acts (λ c. g (f c))
      connects : Acts connect
      requests :
          (payload : List ℕ) (send : Send (SlotValue floats is_printable))
          → ActsSend send
          → Acts (λ c. (send_pia_request floats b64decode payload send c).1)
      subscribes :
          (payloads : List (List ℕ)) (sends : ℕ → Send (SlotValue floats is_printable))
          → ((n : ℕ) → ActsSend (sends n))
          → Acts (λ c. (send_initial_subscriptions floats b64decode sends payloads c).1)
      polls :
          (keepalive_id drawn time : ℤ) (write : Write (SlotValue floats is_printable))
          → Acts write.meanwhile
          → Acts (send_refresh floats b64decode b64encode keepalive_id drawn time write)
      updates :
          (t : TokenUpdate (SlotValue floats is_printable))
          → ActsUpdate t
          → Acts (λ c. (send_update_tokens true t c).1)
      refreshes :
          (status : ℕ) (t : TokenRefresh (SlotValue floats is_printable))
          → Acts t.meanwhile
          → ActsUpdate t.update
          → ((round id : ℕ) → Acts (t.writes round id).meanwhile)
          → Acts (λ c. (refresh_and_retry status t c).1)
      falls_asleep :
          (asleep : SlotClient → SlotClient) (t : TokenUpdate (SlotValue floats is_printable))
          → Acts asleep
          → ActsUpdate t
          → Acts (λ c. (run_standby_entry_refresh asleep t c).1)
      wakes :
          (asleep settled : SlotClient → SlotClient)
          (t : TokenUpdate (SlotValue floats is_printable))
          (sends : ℕ → Send (SlotValue floats is_printable)) (payloads : List (List ℕ))
          → Acts asleep
          → Acts settled
          → ActsUpdate t
          → ((n : ℕ) → ActsSend (sends n))
          → Acts
              (λ c. (run_standby_wake_refresh floats b64decode asleep settled t sends payloads c).1)
      listens :
          (arrivals : List (Arrival (SlotValue floats is_printable)))
          (endings : Endings (SlotValue floats is_printable))
          → Arrives arrivals
          → Acts endings.token_refresh.meanwhile
          → Acts endings.standby_wake.meanwhile
          → Acts endings.standby_entry.meanwhile
          → Acts (λ c. (listen is_space loads handler arrivals endings c).1)
      stops :
          (endings : Endings (SlotValue floats is_printable))
          (closing : Ending (SlotValue floats is_printable))
          → Acts endings.token_refresh.meanwhile
          → Acts endings.standby_wake.meanwhile
          → Acts endings.standby_entry.meanwhile
          → Acts closing.meanwhile
          → Acts (λ c. (stop endings closing c).1)

    pub data ActsSend : Send (SlotValue floats is_printable) → Type 0 where
      sending :
          {send : Send (SlotValue floats is_printable)}
          → Acts send.write.meanwhile
          → Acts send.wait.meanwhile
          → Acts send.wait.after_timeout
          → ActsSend send

    pub data ActsUpdate : TokenUpdate (SlotValue floats is_printable) → Type 0 where
      updating :
          {t : TokenUpdate (SlotValue floats is_printable)}
          → Acts t.meanwhile
          → Acts t.write.meanwhile
          → Acts t.wait.meanwhile
          → Acts t.wait.after_timeout
          → ActsUpdate t

    pub data Arrives : List (Arrival (SlotValue floats is_printable)) → Type 0 where
      no_more : Arrives []
      arrives_text :
          {raw : List ℕ} {pong : Write (SlotValue floats is_printable)}
          {arrivals : List (Arrival (SlotValue floats is_printable))}
          → Acts pong.meanwhile
          → Arrives arrivals
          → Arrives (text raw pong ∷ arrivals)
      arrives_closed :
          {arrivals : List (Arrival (SlotValue floats is_printable))}
          → Arrives arrivals
          → Arrives (socket_closed ∷ arrivals)
      arrives_error :
          {arrivals : List (Arrival (SlotValue floats is_printable))}
          → Arrives arrivals
          → Arrives (socket_error ∷ arrivals)
      arrives_unknown :
          {arrivals : List (Arrival (SlotValue floats is_printable))}
          → Arrives arrivals
          → Arrives (unknown ∷ arrivals)
      arrives_broken :
          {arrivals : List (Arrival (SlotValue floats is_printable))}
          → Arrives arrivals
          → Arrives (broken ∷ arrivals)
      others_act :
          {act : SlotClient → SlotClient}
          {arrivals : List (Arrival (SlotValue floats is_printable))}
          → Acts act
          → Arrives arrivals
          → Arrives (others act ∷ arrivals)

  -- Whatever they do is safe.
  mutual
    unfolding send_initial_subscriptions connect

    Acts-Safe : {f : SlotClient → SlotClient} → Acts f → IsSafe f
    Acts-Safe rest c = Safe-refl c
    Acts-Safe (follow a b) c = Safe-trans (Acts-Safe a c) (Acts-Safe b _)
    Acts-Safe connects c = Safe-core refl
    Acts-Safe (requests payload send a) c =
        send_pia_request-Safe floats b64decode payload send (ActsSend-Safe a) c
    Acts-Safe (subscribes payloads sends a) c =
        subscribe_from-Safe floats b64decode sends (λ n. ActsSend-Safe (a n)) 0 payloads 0 c
    Acts-Safe (polls keepalive_id drawn time write a) c =
        send_refresh-Safe floats b64decode b64encode keepalive_id drawn time write (Acts-Safe a) c
    Acts-Safe (updates t a) c = send_update_tokens-Safe true t (ActsUpdate-Safe a) c
    Acts-Safe (refreshes status t a b d) c =
        refresh_and_retry-Safe status t
          (record {
            meanwhile = Acts-Safe a;
            update = ActsUpdate-Safe b;
            writes = λ round id. Acts-Safe (d round id);
          })
          c
    Acts-Safe (falls_asleep asleep t a b) c =
        run_standby_entry_refresh-Safe asleep t (Acts-Safe a) (ActsUpdate-Safe b) c
    Acts-Safe (wakes asleep settled t sends payloads a a' b d) c =
        run_standby_wake_refresh-Safe floats b64decode asleep settled t sends payloads (Acts-Safe a)
          (Acts-Safe a') (ActsUpdate-Safe b) (λ n. ActsSend-Safe (d n)) c
    Acts-Safe (listens arrivals endings a b b' b'') c =
        listen-Safe is_space loads handler
          (handle_message-Safe floats is_printable known b64decode switches upper publish now)
          (Arrives-Safe a) endings
          (record {
            token_refresh = Acts-Safe b;
            standby_wake = Acts-Safe b';
            standby_entry = Acts-Safe b'';
          })
          c
    Acts-Safe (stops endings closing b b' b'' a) c =
        stop-Safe endings closing
          (record {
            token_refresh = Acts-Safe b;
            standby_wake = Acts-Safe b';
            standby_entry = Acts-Safe b'';
          })
          (Acts-Safe a) c

    ActsSend-Safe : {send : Send (SlotValue floats is_printable)} → ActsSend send → SendIsSafe send
    ActsSend-Safe (sending a b d) = record {
      write = Acts-Safe a;
      wait = record { meanwhile = Acts-Safe b; after_timeout = Acts-Safe d };
    }

    ActsUpdate-Safe :
        {t : TokenUpdate (SlotValue floats is_printable)} → ActsUpdate t → UpdateIsSafe t
    ActsUpdate-Safe (updating a b d e) = record {
      meanwhile = Acts-Safe a;
      write = Acts-Safe b;
      wait = record { meanwhile = Acts-Safe d; after_timeout = Acts-Safe e };
    }

    Arrives-Safe :
        {arrivals : List (Arrival (SlotValue floats is_printable))}
        → Arrives arrivals
        → AllSafe arrivals
    Arrives-Safe no_more = none_left
    Arrives-Safe (arrives_text a r) = one_more (text_safe (Acts-Safe a)) (Arrives-Safe r)
    Arrives-Safe (arrives_closed r) = one_more closed_safe (Arrives-Safe r)
    Arrives-Safe (arrives_error r) = one_more error_safe (Arrives-Safe r)
    Arrives-Safe (arrives_unknown r) = one_more unknown_safe (Arrives-Safe r)
    Arrives-Safe (arrives_broken r) = one_more broken_safe (Arrives-Safe r)
    Arrives-Safe (others_act a r) = one_more (others_safe (Acts-Safe a)) (Arrives-Safe r)

  -- Where coroutines of the hub client run one after another or nested, so that while one is
  -- suspended at an await others may run from their start to their end, to any depth: where every
  -- registered future has been created and no two pending requests share one, this is so
  -- afterwards, no future is lost, and every response and completion future that was settled holds
  -- what it held.
  pub Acts-Inv :
      (f : SlotClient → SlotClient)
      → Acts f
      → (c : SlotClient) → Inv (core c)
      → Inv (core (f c)) × Kept c.responses (f c).responses × Kept c.completions (f c).completions
  Acts-Inv f acts c inv = (Acts-Safe acts c).fine inv
