-- ===== src/Scenario/Runs.antt =====
-- A scenario that is resolved for a vehicle runs there: catalog.py with slot_actions.py and the
-- send_slot_actions of signalr_client.py.
use mathlib.Core.Path.{subst}
use hymer_connect_ha.Prelude.{
  ℕ, Bool, true, false, Option, none, some, List, [], ◌∷◌, ◌≡◌, refl, arith, All, if◌then◌else◌,
}
use hymer_connect_ha.Prelude.Int.{ℤ}
use hymer_connect_ha.Pia.Wire.{Floats}
use hymer_connect_ha.Pia.Requests.{SensorCommand}
use hymer_connect_ha.SignalR.{Client}
use hymer_connect_ha.SignalR.Requests.{Send, send_multi_sensor_command}
use hymer_connect_ha.SlotActions.{
  Arithmetic, SlotMeta, Action, Checked, accepted, slot_action_error, raised_other,
}
use hymer_connect_ha.SlotActions.Serialize.{
  serialize_slot_action, supported_of, action_is_supported,
}
use hymer_connect_ha.SlotActions.Sound.{bind_inv, accepted_injective}
use hymer_connect_ha.SlotActions.Sending.{
  serialize_all, Each, serialize_all-Each, send_serialized, send_slot_actions,
}
use hymer_connect_ha.Scenario.{
  Labels, Entry, Availability, Scenario, is_filled, resolve_available, supported_actions,
  availability_of, add_available, scenario_availability, resolved_scenarios,
}

module _ (floats : Floats) (a : Arithmetic floats.Float) (upper : List ℕ → List ℕ)
    (slot_meta : ℤ → ℤ → Option (SlotMeta floats.Float)) (observed : ℤ → ℤ → Bool) where
  open floats use {Float}

  abbrev IsObserved : SensorCommand floats → Type 0
  IsObserved sensor = observed sensor.bus_id sensor.sensor_id ≡ true

  -- The actions are serialized without an exception, each for an observed slot.
  abbrev Serializes : List (Action Float) → Type 0
  Serializes actions =
      (sensors : List (SensorCommand floats)) × (serialize_all floats a upper slot_meta actions
        ≡ accepted sensors)
      × All IsObserved sensors

  supported_inv :
      (serialized : Checked (SensorCommand floats))
      → supported_of floats a upper slot_meta (some observed) serialized ≡ accepted true
      → (sensor : SensorCommand floats) × (serialized ≡ accepted sensor) × IsObserved sensor
  unfolding supported_of
  supported_inv (accepted sensor) h = (sensor, refl, accepted_injective h)
  supported_inv slot_action_error h = ground (arith, accepted_injective h)
  supported_inv raised_other h = cc

  Serializes-cons :
      (action : Action Float) (actions : List (Action Float))
      → action_is_supported floats a upper slot_meta action (some observed) ≡ accepted true
      → Serializes actions
      → Serializes (action ∷ actions)
  unfolding action_is_supported serialize_all
  Serializes-cons action actions h (sensors, e, seen) =
      let (sensor, e', now) =
        supported_inv (serialize_slot_action floats a upper slot_meta action) h in
      (sensor ∷ sensors, cc (e, e'), (now, seen))

  add_supported :
      (action : Action Float) (rest : List (Action Float)) (b : Bool)
      → action_is_supported floats a upper slot_meta action (some observed) ≡ accepted b
      → Serializes rest
      → Serializes (if b then action ∷ rest else rest)
  add_supported action rest true h s = Serializes-cons action rest h s
  add_supported action rest false h s = s

  supported_actions-Serializes :
      (actions supported : List (Action Float))
      → supported_actions floats a upper slot_meta observed actions ≡ accepted supported
      → Serializes supported
  unfolding supported_actions serialize_all
  supported_actions-Serializes [] supported h =
      subst Serializes (accepted_injective h) ([], refl, tt)
  supported_actions-Serializes (action ∷ actions) supported h =
      let next = supported_actions-Serializes actions in
      let (b, e, h1) =
        bind_inv (action_is_supported floats a upper slot_meta action (some observed)) _ supported
          h in
      let (rest, e', h2) =
        bind_inv (supported_actions floats a upper slot_meta observed actions) _ supported h1 in
      subst Serializes (accepted_injective h2) (add_supported action rest b e (next rest e'))

  abbrev IsAvailable : Availability Float → Type 0
  IsAvailable available = Serializes available.supported_actions

  add_available-All :
      (labels : Labels) (actions : Option (List (Action Float)))
      (more : Checked (List (Availability Float)))
      → ((rest : List (Availability Float)) → more ≡ accepted rest → All IsAvailable rest)
      → (all : List (Availability Float))
      → add_available floats a upper slot_meta observed labels actions more ≡ accepted all
      → All IsAvailable all
  unfolding add_available availability_of
  add_available-All labels none more later all e = later all e
  add_available-All labels (some actions) more later all e =
      let (supported, e1, h1) =
        bind_inv (supported_actions floats a upper slot_meta observed actions) _ all e in
      let (rest, e2, h2) = bind_inv more _ all h1 in
      subst (All IsAvailable) (accepted_injective h2)
        (supported_actions-Serializes actions supported e1, later rest e2)

  scenario_availability-All :
      (entries : List (Entry Float)) (available : List (Availability Float))
      → scenario_availability floats a upper slot_meta observed entries ≡ accepted available
      → All IsAvailable available
  unfolding scenario_availability
  scenario_availability-All [] available h = subst (All IsAvailable) (accepted_injective h) tt
  scenario_availability-All (entry ∷ entries) available h =
      add_available-All entry.labels entry.actions
        (scenario_availability floats a upper slot_meta observed entries)
        (scenario_availability-All entries) available h

  -- A scenario has an action, and all are serialized.
  abbrev IsResolved : Scenario Float → Type 0
  IsResolved scenario = (is_filled scenario.actions ≡ true) × Serializes scenario.actions

  keep_filled :
      (b : Bool) (scenario : Scenario Float) (rest : List (Scenario Float))
      → (b ≡ true → IsResolved scenario)
      → All IsResolved rest
      → All IsResolved (if b then scenario ∷ rest else rest)
  keep_filled true scenario rest now later = (now refl, later)
  keep_filled false scenario rest now later = later

  resolve_available-All :
      (available : List (Availability Float))
      → All IsAvailable available
      → All IsResolved (resolve_available available)
  unfolding resolve_available
  resolve_available-All [] all = tt
  resolve_available-All (first ∷ more) (now, later) =
      let rest = resolve_available-All more later in
      keep_filled (is_filled first.supported_actions) _ (resolve_available more) (λ e. (e, now))
        rest

  module _ {Client_value : Type 0} (b64decode : List ℕ → Option (List ℕ))
      (b64encode : List ℕ → List ℕ) (msg_id ts : ℤ) (send : Send Client_value)
      (c : Client Client_value) where
    -- The actions are sent in one command, a sensor for each, to observed slots only.
    abbrev pub Runs : Scenario Float → Type 0
    Runs scenario =
        (is_filled scenario.actions ≡ true)
        × ((sensors : List (SensorCommand floats)) × Each floats a upper slot_meta scenario.actions
              sensors
            × All IsObserved sensors
            × (send_slot_actions floats a upper slot_meta b64decode b64encode msg_id ts send
                  scenario.actions c
                ≡ send_multi_sensor_command floats b64decode b64encode sensors msg_id ts send c))

    sends :
        (actions : List (Action Float)) (sensors : List (SensorCommand floats))
        → is_filled actions ≡ true
        → serialize_all floats a upper slot_meta actions ≡ accepted sensors
        → send_slot_actions floats a upper slot_meta b64decode b64encode msg_id ts send actions c
          ≡ send_multi_sensor_command floats b64decode b64encode sensors msg_id ts send c
    unfolding is_filled send_slot_actions send_serialized
    sends [] sensors filled e = ground (arith, filled)
    sends (action ∷ actions) sensors filled e = rw e refl

    All-Runs : (scenarios : List (Scenario Float)) → All IsResolved scenarios → All Runs scenarios
    All-Runs [] all = tt
    All-Runs (scenario ∷ scenarios) ((filled, (sensors, e, seen)), later) = (
      (
        filled,
        (
          sensors,
          serialize_all-Each floats a upper slot_meta scenario.actions sensors e,
          seen,
          sends scenario.actions sensors filled e,
        ),
      ),
      All-Runs scenarios later,
    )

    -- Where the scenarios for a vehicle are resolved without an exception: each has an action, and
    -- sending its actions sends one command with a serialized sensor for each of them, in order, to
    -- observed slots only.
    pub resolved_scenarios-Runs :
        (entries : List (Entry Float)) (scenarios : List (Scenario Float))
        → resolved_scenarios floats a upper slot_meta observed entries ≡ accepted scenarios
        → All Runs scenarios
    unfolding resolved_scenarios
    resolved_scenarios-Runs entries scenarios h =
        let (available, e, h1) =
          bind_inv (scenario_availability floats a upper slot_meta observed entries) _ scenarios
            h in
        All-Runs scenarios (
          subst (All IsResolved) (accepted_injective h1)
            (resolve_available-All available (scenario_availability-All entries available e)))
