-- ===== src/SlotActions/Sending.antt =====
-- send_slot_actions of signalr_client.py: catalog actions are serialized, and sent as one command.
use mathlib.Core.Path.{subst}
use hymer_connect_ha.Prelude.{ℕ, true, Option, List, [], ◌∷◌, ◌≡◌, refl, ◌⊎◌, inl, inr}
use hymer_connect_ha.Prelude.Int.{ℤ}
use hymer_connect_ha.Pia.Wire.{Floats}
use hymer_connect_ha.Pia.Requests.{SensorCommand}
use hymer_connect_ha.SignalR.{other_error, Client, Reply, returned, raised}
use hymer_connect_ha.SignalR.Requests.{Send, send_multi_sensor_command}
use hymer_connect_ha.SlotActions.{
  Arithmetic, SlotMeta, Action, Checked, accepted, slot_action_error, raised_other, ◌>>=◌,
}
use hymer_connect_ha.SlotActions.Serialize.{serialize_slot_action}
use hymer_connect_ha.SlotActions.Sound.{
  bind_inv, accepted_injective, IsSerialized, serialize_slot_action-IsSerialized,
}

module _ (floats : Floats) (a : Arithmetic floats.Float) (upper : List ℕ → List ℕ)
    (slot_meta : ℤ → ℤ → Option (SlotMeta floats.Float)) where
  open floats use {Float}

  unfoldable pub serialize_all : List (Action Float) → Checked (List (SensorCommand floats))
  serialize_all [] = accepted []
  serialize_all (action ∷ actions) = do
    sensor ← serialize_slot_action floats a upper slot_meta action
    sensors ← serialize_all actions
    accepted (sensor ∷ sensors)

  -- Every action has its command, in order.
  pub data Each : List (Action Float) → List (SensorCommand floats) → Type 0 where
    no_more : Each [] []
    one_more :
        {action : Action Float} {actions : List (Action Float)} {sensor : SensorCommand floats}
        {sensors : List (SensorCommand floats)}
        → IsSerialized floats a upper slot_meta action sensor
        → Each actions sensors
        → Each (action ∷ actions) (sensor ∷ sensors)

  module _ {Client_value : Type 0} (b64decode : List ℕ → Option (List ℕ))
      (b64encode : List ℕ → List ℕ) (msg_id ts : ℤ) (send : Send Client_value) where
    -- A serialization that raises sends nothing.
    unfoldable pub send_serialized :
        Checked (List (SensorCommand floats)) → Client Client_value → Reply × Client Client_value
    send_serialized (accepted sensors) c =
        send_multi_sensor_command floats b64decode b64encode sensors msg_id ts send c
    send_serialized slot_action_error c = (raised other_error, c)
    send_serialized raised_other c = (raised other_error, c)

    unfoldable pub send_slot_actions :
        List (Action Float) → Client Client_value → Reply × Client Client_value
    send_slot_actions [] c = (returned true, c)
    send_slot_actions (action ∷ actions) c = send_serialized (serialize_all (action ∷ actions)) c

  pub serialize_all-Each :
      (actions : List (Action Float)) (sensors : List (SensorCommand floats))
      → serialize_all actions ≡ accepted sensors
      → Each actions sensors
  unfolding serialize_all
  serialize_all-Each [] sensors h = subst (Each []) (accepted_injective h) no_more
  serialize_all-Each (action ∷ actions) sensors h =
      let next = serialize_all-Each actions in
      let (sensor, e, h1) =
        bind_inv (serialize_slot_action floats a upper slot_meta action) _ sensors h in
      let (rest, e', h2) = bind_inv (serialize_all actions) _ sensors h1 in
      subst (Each (action ∷ actions)) (accepted_injective h2) (
        one_more (serialize_slot_action-IsSerialized floats a upper slot_meta action sensor e)
          (next rest e'))

  module _ {Client_value : Type 0} (b64decode : List ℕ → Option (List ℕ))
      (b64encode : List ℕ → List ℕ) (msg_id ts : ℤ) (send : Send Client_value) where
    -- The command that is sent, or the exception with the client as it was.
    abbrev pub AllOrNothing :
        List (Action Float) → Client Client_value → Reply × Client Client_value → Type 0
    AllOrNothing actions c ended =
        ((sensors : List (SensorCommand floats)) × Each actions sensors
          × (ended ≡ send_multi_sensor_command floats b64decode b64encode sensors msg_id ts send c))
        ⊎ (ended ≡ (raised other_error, c))

    all_or_nothing :
        (actions : List (Action Float)) (c : Client Client_value)
        (serialized : Checked (List (SensorCommand floats)))
        → serialize_all actions ≡ serialized
        → AllOrNothing actions c (send_serialized b64decode b64encode msg_id ts send serialized c)
    unfolding send_serialized
    all_or_nothing actions c (accepted sensors) e =
        inl (sensors, serialize_all-Each actions sensors e, refl)
    all_or_nothing actions c slot_action_error e = inr refl
    all_or_nothing actions c raised_other e = inr refl

    -- Sending a list of actions that is not empty either sends one command with a serialized sensor
    -- for each action, in order, or raises and leaves the client as it was.
    pub send_slot_actions-AllOrNothing :
        (action : Action Float) (actions : List (Action Float)) (c : Client Client_value)
        → AllOrNothing
            (action ∷ actions)
            c
            (send_slot_actions b64decode b64encode msg_id ts send (action ∷ actions) c)
    unfolding send_slot_actions
    send_slot_actions-AllOrNothing action actions c = all_or_nothing (action ∷ actions) c _ refl
