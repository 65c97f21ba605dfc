-- ===== src/Tests/Reconnects.antt =====
-- A coordinator whose client has lost its connection, and commands that a transport refuses.
use hymer_connect_ha.Prelude.{ℕ, ◌≤◌, ◌≡◌, refl, arith, true, false, some, [], ◌∷◌, All, length}
use hymer_connect_ha.Prelude.Text.{codes}
use hymer_connect_ha.SignalR.{idle}
use hymer_connect_ha.Coordinator.{Session, Coordinator, api_failed, Round, reconnect_loop}
use hymer_connect_ha.Coordinator.Commands.{CloudAttempt, BleAttempt, Options, send_with_retry}
use hymer_connect_ha.Coordinator.Reconnect
use hymer_connect_ha.Coordinator.Stale
use hymer_connect_ha.Coordinator.Sent

abbrev lost : Session
lost = record { generation = 1; is_connected = false }

abbrev coordinator : Coordinator
coordinator = record {
  has_scu = true;
  signalr = some lost;
  reconnect_backoff = 1;
  last_reconnect_attempt = 0;
  signalr_connected_at = 100;
  signalr_generation = 1;
  frame_generation = 1;
  consecutive_failures = 0;
  reconnect_task = idle;
  suppress_connection_lost_refresh = false;
  shutting_down = false;
  tasks = 0;
}

-- Every start fails, and nothing else happens.
abbrev failing : ℕ → Round
failing n = record {
  asleep = λ c. c;
  start = record { now = 200; stop_raises = false; meanwhile = λ c. c; ended = api_failed };
}

reconnect_loop-IsDelay_example :
    All (λ (delay : ℕ). (1 ≤ delay) × (delay ≤ 300)) (reconnect_loop 5 1 failing coordinator).0
    × (length (reconnect_loop 5 1 failing coordinator).0 ≤ 5)
reconnect_loop-IsDelay_example =
    Reconnect.reconnect_loop-IsDelay 5 1 failing coordinator
      (λ n. record { asleep = λ c h. h; meanwhile = λ c h. h }) (omega arith, omega arith)
      (omega arith, omega arith)

reconnect_loop_stale_example :
    ((reconnect_loop 5 1 failing coordinator).0 ≡ 1 ∷ [])
    × ((reconnect_loop 5 1 failing coordinator).1.suppress_connection_lost_refresh ≡ true)
reconnect_loop_stale_example =
    Stale.reconnect_loop_stale 4 1 failing coordinator lost (λ c. refl) refl refl refl refl refl
      refl

abbrev ble_fallback : Options
ble_fallback = record { ble_enabled = true; has_ble_address = true; ble_primary = false }

send_with_retry-SentOnce_example :
    Sent.SentOnce
      (CloudAttempt.answers false)
      CloudAttempt.raises
      (BleAttempt.answers true)
      ble_fallback
      (codes "send_light_command")
      (send_with_retry
        (CloudAttempt.answers false)
        CloudAttempt.raises
        (BleAttempt.answers true)
        ble_fallback
        (codes "send_light_command"))
send_with_retry-SentOnce_example =
    Sent.send_with_retry-SentOnce (CloudAttempt.answers false) CloudAttempt.raises
      (BleAttempt.answers true) ble_fallback (codes "send_light_command")
