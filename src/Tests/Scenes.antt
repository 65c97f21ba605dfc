-- ===== src/Tests/Scenes.antt =====
-- A scene with a level that the dimmer takes, one above its maximum, and one of a lamp that the vehicle
-- does not have; and a scene of that lamp alone.
use hymer_connect_ha.Prelude.{ℕ, ◌≡◌, refl, Bool, ◌&&◌, none, some, List, [], ◌∷◌, All}
use hymer_connect_ha.Prelude.Int.{ℤ, pos}
use hymer_connect_ha.SlotActions.{
  integer, Action, accepted, is_number, integer_of, float_of, float_of_int, natural,
  validate_numeric_range, not_below, not_above, reverse_transform, is_writable,
}
use hymer_connect_ha.SlotActions.Serialize.{
  serialize_slot_action, serialize_for, sensor_for, write, write_int, write_integer, sensor_of,
  supported_of, action_is_supported,
}
use hymer_connect_ha.Capability.{int_eq}
use hymer_connect_ha.Scenario.{
  Labels, Entry, Scenario, is_filled, resolve_available, present_actions, supported_actions,
  availability_of, add_available, scenario_availability, resolved_scenarios,
}
use hymer_connect_ha.Scenario.Runs
use hymer_connect_ha.Tests.Actions.{whole_floats, whole, dimmer, set_to}
use hymer_connect_ha.Tests.Hub.{hub, calm_send, plain}

abbrev lamp : Action ℤ
lamp = record { component_id = pos 12; sensor_id = pos 2; value = integer (pos 1) }

abbrev has_dimmer : ℤ → ℤ → Bool
has_dimmer component_id sensor_id = int_eq component_id (pos 11) && int_eq sensor_id (pos 2)

abbrev named : ℕ → Labels
named n = record { key = some (n ∷ []); kind = none; id = none; name = none; icon = none }

abbrev two_entries : List (Entry ℤ)
two_entries =
    record { labels = named 1; actions = some (set_to 40 ∷ set_to 101 ∷ lamp ∷ []) }
    ∷ record { labels = named 2; actions = some (lamp ∷ []) }
    ∷ record { labels = named 3; actions = none }
    ∷ []

abbrev evening : Scenario ℤ
evening = record {
  labels = named 1;
  action_count = 3;
  present_action_count = 2;
  supported_action_count = 1;
  actions = set_to 40 ∷ [];
}

resolved_evening :
    resolved_scenarios whole_floats whole (λ s. s) dimmer has_dimmer two_entries
    ≡ accepted (evening ∷ [])
unfolding resolved_scenarios scenario_availability add_available supported_actions present_actions
    availability_of resolve_available is_filled action_is_supported supported_of
    serialize_slot_action serialize_for sensor_for write write_int write_integer is_number
    integer_of float_of float_of_int natural validate_numeric_range not_below not_above
    reverse_transform is_writable sensor_of int_eq
resolved_evening = refl

resolved_scenarios-Runs_example :
    All
      (Runs.Runs whole_floats whole
        (λ s. s)
        dimmer
        has_dimmer
        plain
        (λ b. b)
        (pos 9)
        (pos 1)
        (calm_send {Value = ℕ})
        (hub []))
      (evening ∷ [])
resolved_scenarios-Runs_example =
    Runs.resolved_scenarios-Runs whole_floats whole (λ s. s) dimmer has_dimmer plain (λ b. b)
      (pos 9) (pos 1) calm_send (hub []) two_entries (evening ∷ []) resolved_evening
