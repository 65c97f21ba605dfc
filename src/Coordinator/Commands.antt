-- ===== src/Coordinator/Commands.antt =====
-- The sending of a command over the hub or Bluetooth, coordinator.py. What a transport answers is an
-- argument, and the answers to what was sent are kept in order.
use hymer_connect_ha.Prelude.{ℕ, Bool, true, false, ◌&&◌, List, [], ◌∷◌, ◌++◌, if◌then◌else◌}
use hymer_connect_ha.Prelude.Text.{codes, text_in}

pub data Transport : Type 0 where
  cloud ble : Transport

-- A command that was sent, and whether it was accepted; an exception counts as a refusal.
pub record Sending : Type 0 where
  pub transport : Transport
  pub is_accepted : Bool

-- An attempt over the hub: no healthy client, or the answer of the client.
pub data CloudAttempt : Type 0 where
  unavailable : CloudAttempt
  answers : Bool → CloudAttempt
  raises : CloudAttempt

pub data BleAttempt : Type 0 where
  no_transport : BleAttempt
  answers : Bool → BleAttempt
  raises : BleAttempt

pub record Options : Type 0 where
  pub ble_enabled : Bool
  pub has_ble_address : Bool
  pub ble_primary : Bool

abbrev pub ble_routable : List (List ℕ)
ble_routable = codes "send_light_command" ∷ codes "send_multi_sensor_command" ∷ []

unfoldable pub ble_ready : Options → List ℕ → Bool
ble_ready options method_name =
    text_in method_name ble_routable && options.ble_enabled && options.has_ble_address

unfoldable pub transport_order : Options → List ℕ → List Transport
transport_order options method_name =
    if ble_ready options method_name
    then (if options.ble_primary then ble ∷ cloud ∷ [] else cloud ∷ ble ∷ [])
    else cloud ∷ []

-- Whether the command was accepted, and what was sent.
abbrev pub Tried : Type 0
Tried = Bool × List Sending

abbrev pub over_cloud : Bool → Sending
over_cloud ok = record { transport = cloud; is_accepted = ok }

abbrev pub over_ble : Bool → Sending
over_ble ok = record { transport = ble; is_accepted = ok }

unfoldable pub last_attempt : CloudAttempt → Tried
last_attempt unavailable = (false, [])
last_attempt (answers ok) = (ok, over_cloud ok ∷ [])
last_attempt raises = (false, over_cloud false ∷ [])

-- After a refusal the client is marked as disconnected, and the second attempt is made.
unfoldable pub once_more : CloudAttempt → Tried
unfolding last_attempt
once_more second = let (ok, sendings) = last_attempt second in (ok, over_cloud false ∷ sendings)

unfoldable pub try_cloud_send : (first second : CloudAttempt) → Tried
try_cloud_send unavailable second = (false, [])
try_cloud_send (answers true) second = (true, over_cloud true ∷ [])
try_cloud_send (answers false) second = once_more second
try_cloud_send raises second = once_more second

unfoldable pub try_ble_send : BleAttempt → Tried
try_ble_send no_transport = (false, [])
try_ble_send (answers ok) = (ok, over_ble ok ∷ [])
try_ble_send raises = (false, over_ble false ∷ [])

module _ (first second : CloudAttempt) (over_air : BleAttempt) where
  unfoldable pub try_send : Transport → Tried
  try_send cloud = try_cloud_send first second
  try_send ble = try_ble_send over_air

  -- The transports in order, until one accepts; false where HomeAssistantError is raised.
  unfoldable pub send_over : List Transport → Tried
  send_over [] = (false, [])
  send_over (transport ∷ transports) =
      let (ok, sendings) = try_send transport in
      let (later_ok, later) = send_over transports in
      if ok then (true, sendings) else (later_ok, sendings ++ later)

  unfoldable pub send_with_retry : Options → List ℕ → Tried
  send_with_retry options method_name = send_over (transport_order options method_name)
