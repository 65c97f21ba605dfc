-- ===== src/Tests/Actions.antt =====
-- A dimmer whose level is an int from 0 to 100, and the action that sets it to 40. A float is an integer
-- here: every one is whole, and the limits are compared as integers.
use hymer_connect_ha.Prelude.{
  ℕ, ◌≡◌, refl, Bool, true, false, Option, none, some, [], ◌∷◌, ltb, ◌==◌,
}
use hymer_connect_ha.Prelude.Int.{ℤ, pos, negsuc}
use hymer_connect_ha.Prelude.Result.{ok}
use hymer_connect_ha.Pia.Wire.{Floats}
use hymer_connect_ha.Pia.Requests.{SensorCommand}
use hymer_connect_ha.SlotActions.{
  Arithmetic, integer, integral, read_write, SlotMeta, Action, accepted, slot_action_error,
  is_number, integer_of, float_of, float_of_int, natural, validate_numeric_range, not_below,
  not_above, reverse_transform, is_writable, times_int, hundred_minus_int,
}
use hymer_connect_ha.SlotActions.Serialize.{
  serialize_slot_action, serialize_for, sensor_for, write, write_int, write_integer, sensor_of,
}
use hymer_connect_ha.SlotActions.Sound
use hymer_connect_ha.SlotActions.Sending
use hymer_connect_ha.Tests.Hub.{hub, calm_send, plain}

abbrev pub whole_floats : Floats
whole_floats = record {
  Float = ℤ;
  unpack_double = λ bytes. pos 0;
  unpack_single = λ bytes. pos 0;
  pack_single = λ x. ok [];
  is_sentinel = λ x. false;
}

abbrev pub int_below : ℤ → ℤ → Bool
int_below (pos m) (pos n) = ltb m n
int_below (pos m) (negsuc n) = false
int_below (negsuc m) (pos n) = true
int_below (negsuc m) (negsuc n) = ltb n m

abbrev pub is_pos : ℕ → ℤ → Bool
is_pos k (pos n) = n == k
is_pos k (negsuc n) = false

abbrev pub whole : Arithmetic ℤ
whole = record {
  of_int = λ n. some n;
  times = times_int;
  hundred_minus = hundred_minus_int;
  below = int_below;
  is_integer = λ x. true;
  to_int = λ x. x;
  is_zero = is_pos 0;
  is_one = is_pos 1;
}

abbrev pub dimmer : ℤ → ℤ → Option (SlotMeta ℤ)
dimmer component_id sensor_id = some (record {
  datatype = integral;
  wire_mode = read_write;
  transform = none;
  min_value = some (pos 0);
  max_value = some (pos 100);
})

abbrev pub set_to : ℕ → Action ℤ
set_to level = record { component_id = pos 11; sensor_id = pos 2; value = integer (pos level) }

abbrev dim_command : SensorCommand whole_floats
dim_command = record {
  bus_id = pos 11;
  sensor_id = pos 2;
  bool_value = none;
  uint_value = some (pos 40);
  str_value = none;
  float_value = none;
}

forty : serialize_slot_action whole_floats whole (λ s. s) dimmer (set_to 40) ≡ accepted dim_command
unfolding serialize_slot_action serialize_for sensor_for write write_int write_integer is_number
    integer_of float_of float_of_int natural validate_numeric_range not_below not_above
    reverse_transform is_writable sensor_of
forty = refl

-- A level above the maximum is refused.
hundred_one :
    serialize_slot_action whole_floats whole (λ s. s) dimmer (set_to 101) ≡ slot_action_error
unfolding serialize_slot_action serialize_for sensor_for write write_int write_integer is_number
    integer_of float_of float_of_int natural validate_numeric_range not_below not_above
    reverse_transform is_writable sensor_of
hundred_one = refl

serialize_slot_action-IsSerialized_example :
    Sound.IsSerialized whole_floats whole (λ s. s) dimmer (set_to 40) dim_command
serialize_slot_action-IsSerialized_example =
    Sound.serialize_slot_action-IsSerialized whole_floats whole (λ s. s) dimmer (set_to 40)
      dim_command forty

send_slot_actions-AllOrNothing_example :
    Sending.AllOrNothing whole_floats whole
      (λ s. s)
      dimmer
      plain
      (λ b. b)
      (pos 9)
      (pos 1)
      (calm_send {Value = ℕ})
      (set_to 40 ∷ set_to 101 ∷ [])
      (hub [])
      (Sending.send_slot_actions whole_floats whole
        (λ s. s)
        dimmer
        plain
        (λ b. b)
        (pos 9)
        (pos 1)
        calm_send
        (set_to 40 ∷ set_to 101 ∷ [])
        (hub []))
send_slot_actions-AllOrNothing_example =
    Sending.send_slot_actions-AllOrNothing whole_floats whole (λ s. s) dimmer plain (λ b. b) (pos 9)
      (pos 1) calm_send (set_to 40) (set_to 101 ∷ []) (hub [])
