-- ===== src/SignalR/Requests.antt =====
-- send_pia_request and the burst of startup subscriptions, signalr_client.py. What the other tasks do
-- while one is suspended is a function on the client, `meanwhile`. A wait that is still pending when
-- it is resumed has timed out.
use hymer_connect_ha.Prelude.{
  ℕ, ◌+◌, Bool, true, false, ◌||◌, Option, none, some, List, [], ◌∷◌, ◌==◌, if◌then◌else◌,
}
use hymer_connect_ha.Prelude.Int.{ℤ}
use hymer_connect_ha.Prelude.Dict.{get, put}
use hymer_connect_ha.Prelude.Result.{Result, ok, err, stuck}
use hymer_connect_ha.Pia.Wire.{Floats}
use hymer_connect_ha.Pia.Envelopes.{ResponseMessage, extract_request_id_from_payload}
use hymer_connect_ha.Pia.Requests.{
  SensorCommand, build_light_command, build_multi_sensor_command, build_restart_system_request,
}
use hymer_connect_ha.SignalR.{
  Failure, api_error, pia_failed, other_error, Outcome, waiting, result, exception, cancelled, done,
  create_future, is_live, in_flight, Pending, Client, Write, Reply, returned, raised, was_cancelled,
  lose_connection, enqueue, forget, settle_response, send_request_payload,
}

-- What the other tasks do during the wait, and between a timeout and its handling.
pub record Wait (Value : Type 0) : Type 0 where
  pub meanwhile : Client Value → Client Value
  pub after_timeout : Client Value → Client Value

-- A request's write and wait.
pub record Send (Value : Type 0) : Type 0 where
  pub write : Write Value
  pub wait : Wait Value

-- `err.status in TRANSIENT_UPSTREAM_STATUSES`
unfoldable pub is_transient : ℕ → Bool
is_transient status = status == 15 || status == 16 || status == 17 || status == 18

module _ {Value : Type 0} where
  -- A new pending request, with a new future.
  unfoldable pub register : ℕ → List ℕ → Client Value → ℕ × Client Value
  register id payload c = (
    c.responses.allocated,
    record c {
      responses = create_future c.responses;
      pending_requests =
          put id (record { payload = payload; future = c.responses.allocated; sent = false })
            c.pending_requests;
    },
  )

  -- The pending request that is joined, if it has not been settled, and whether it was sent.
  unfoldable pub join_pending : ℕ → List ℕ → Option Pending → Client Value → ℕ × Bool × Client Value
  join_pending id payload none c = let (r, c') = register id payload c in (r, false, c')
  join_pending id payload (some p) c =
      let (r, c') = register id payload c in
      if done (c.responses.outcome p.future) then (r, false, c') else (p.future, p.sent, c)

  -- The end of a write that may have failed; the flag tells whether to wait for the response.
  unfoldable pub after_transmit : ℕ → Option Failure × Client Value → Bool × Client Value
  after_transmit id (none, c) = (true, c)
  after_transmit id (some e, c) = (false, forget id (lose_connection c))

  -- The request is queued during a token refresh, else written if it has not been.
  unfoldable pub transmit : ℕ → List ℕ → Bool → Write Value → Client Value → Bool × Client Value
  transmit id payload sent write c =
      if in_flight c.token_refresh_task
      then (true, enqueue id c)
      else if sent
      then (true, c)
      else after_transmit id (send_request_payload id payload write c)

  -- How a wait for the future `r` ends, by what it holds.
  unfoldable pub resume :
      ℕ
      → ℕ
      → (Client Value → Client Value)
      → Outcome ResponseMessage
      → Client Value
      → Reply × Client Value
  resume id r after_timeout waiting c =
      (returned false, forget id (after_timeout (settle_response r cancelled c)))
  resume id r after_timeout (result response) c = (returned true, c)
  resume id r after_timeout (exception e) c = (raised e, forget id c)
  resume id r after_timeout cancelled c = (was_cancelled, c)

  unfoldable pub await_response : ℕ → ℕ → Wait Value → Client Value → Reply × Client Value
  await_response id r wait c =
      let c' = wait.meanwhile c in resume id r wait.after_timeout (c'.responses.outcome r) c'

  unfoldable pub request : Option ℕ → List ℕ → Send Value → Client Value → Reply × Client Value
  request none payload send c = (returned false, c)
  request (some id) payload send c =
      let (r, sent, c1) = join_pending id payload (get id c.pending_requests) c in
      let (sent_or_queued, c2) = transmit id payload sent send.write c1 in
      let reply = await_response id r send.wait c2 in
      if sent_or_queued then reply else (returned false, c2)

  module _ (floats : Floats) (b64decode : List ℕ → Option (List ℕ)) where
    unfoldable pub send_pia_request : List ℕ → Send Value → Client Value → Reply × Client Value
    send_pia_request payload send c =
        if is_live c.ws
        then request (extract_request_id_from_payload floats b64decode payload) payload send c
        else (returned false, c)

    -- The burst from the `n`-th subscription on: `succeeded` of those before have been answered.
    unfoldable pub subscribe_from :
        (ℕ → Send Value) → ℕ → List (List ℕ) → (succeeded : ℕ) → Client Value → Reply × Client Value
    subscribe_from sends n [] succeeded c =
        if succeeded == 0 then (raised api_error, c) else (returned true, c)
    subscribe_from sends n (payload ∷ payloads) succeeded c =
        let (reply, c') = send_pia_request payload (sends n) c in
        elim reply as (λ _. Reply × Client Value) [
          | returned true ↦ subscribe_from sends (n + 1) payloads (succeeded + 1) c'
          | returned false ↦ subscribe_from sends (n + 1) payloads succeeded c'
          | raised api_error ↦ (raised api_error, c')
          | raised other_error ↦ (raised other_error, c')
          | raised (pia_failed status id) ↦
              let next = subscribe_from sends (n + 1) payloads succeeded c' in
              if is_transient status then next else (raised (pia_failed status id), c')
          | was_cancelled ↦ (was_cancelled, c')
        ]

    -- `payloads` are those of build_subscription_requests.
    unfoldable pub send_initial_subscriptions :
        (ℕ → Send Value) → List (List ℕ) → Client Value → Reply × Client Value
    send_initial_subscriptions sends payloads c = subscribe_from sends 0 payloads 0 c

    -- A payload that cannot be built raises before anything is sent.
    unfoldable pub send_built : Result (List ℕ) → Send Value → Client Value → Reply × Client Value
    send_built (ok payload) send c = send_pia_request payload send c
    send_built (err e) send c = (raised other_error, c)
    send_built stuck send c = (raised other_error, c)

    module _ (b64encode : List ℕ → List ℕ) where
      -- The optimistic state of a main switch is only logged.
      unfoldable pub send_light_command :
          ℤ
          → ℤ
          → Option Bool
          → Option ℤ
          → Option (List ℕ)
          → (msg_id ts : ℤ) → Send Value
          → Client Value
          → Reply × Client Value
      send_light_command bus_id sensor_id bool_value uint_value str_value msg_id ts =
          send_built (
            build_light_command b64encode bus_id sensor_id bool_value uint_value str_value msg_id
              ts)

      unfoldable pub send_multi_sensor_command :
          List (SensorCommand floats)
          → (msg_id ts : ℤ) → Send Value
          → Client Value
          → Reply × Client Value
      send_multi_sensor_command sensors msg_id ts =
          send_built (build_multi_sensor_command floats b64encode sensors msg_id ts)

      unfoldable pub send_restart_system_command :
          Bool → (msg_id ts : ℤ) → Send Value → Client Value → Reply × Client Value
      send_restart_system_command cold msg_id ts =
          send_pia_request (build_restart_system_request b64encode cold msg_id ts)
