-- ===== src/SlotActions/Serialize.antt =====
-- serialize_slot_action and action_is_supported of slot_actions.py.
use hymer_connect_ha.Prelude.{ℕ, Bool, true, false, Option, none, some, List, if◌then◌else◌}
use hymer_connect_ha.Prelude.Int.{ℤ}
use hymer_connect_ha.Pia.Wire.{Floats}
use hymer_connect_ha.Pia.Requests.{SensorCommand}
use hymer_connect_ha.SlotActions.{
  unknown_datatype, textual, ◌>>=◌, boolean, floating, integral, Action, Arithmetic, Checked,
  Datatype, SlotMeta, Value, accepted, bit_of, flag, float_of, integer, integer_of, is_number,
  is_writable, other, raised_other, real, reverse_transform, slot_action_error, text,
  validate_numeric_range,
}

-- The value that is set in the sensor dict.
pub data Written (Float : Type 0) : Type 0 where
  bool_value : Bool → Written Float
  float_value : Float → Written Float
  uint_value : ℤ → Written Float
  str_value : List ℕ → Written Float

module _ (floats : Floats) where
  open floats use {Float}

  unfoldable pub sensor_of : ℤ → ℤ → Written Float → SensorCommand floats
  sensor_of bus sid (bool_value b) = record {
    bus_id = bus;
    sensor_id = sid;
    bool_value = some b;
    uint_value = none;
    str_value = none;
    float_value = none;
  }
  sensor_of bus sid (float_value x) = record {
    bus_id = bus;
    sensor_id = sid;
    bool_value = none;
    uint_value = none;
    str_value = none;
    float_value = some x;
  }
  sensor_of bus sid (uint_value n) = record {
    bus_id = bus;
    sensor_id = sid;
    bool_value = none;
    uint_value = some n;
    str_value = none;
    float_value = none;
  }
  sensor_of bus sid (str_value s) = record {
    bus_id = bus;
    sensor_id = sid;
    bool_value = none;
    uint_value = none;
    str_value = some s;
    float_value = none;
  }

  module _ (a : Arithmetic Float) (upper : List ℕ → List ℕ) where
    unfoldable pub write_bool : Option Bool → Checked (Written Float)
    write_bool none = slot_action_error
    write_bool (some b) = accepted (bool_value b)

    unfoldable pub write_real :
        SlotMeta Float → (user_value value : Value Float) → Checked (Written Float)
    write_real meta user_value value = do
      user ← float_of a user_value
      _ ← validate_numeric_range a user meta.min_value meta.max_value
      x ← float_of a value
      accepted (float_value x)

    unfoldable pub write_float :
        SlotMeta Float → (user_value value : Value Float) → Checked (Written Float)
    write_float meta user_value value =
        if is_number a value then write_real meta user_value value else slot_action_error

    unfoldable pub write_integer :
        SlotMeta Float → (user_value value : Value Float) → Checked (Written Float)
    write_integer meta user_value value = do
      n ← integer_of a value
      user ← float_of a user_value
      _ ← validate_numeric_range a user meta.min_value meta.max_value
      accepted (uint_value n)

    unfoldable pub write_int :
        SlotMeta Float → (user_value value : Value Float) → Checked (Written Float)
    write_int meta user_value value =
        if is_number a value then write_integer meta user_value value else slot_action_error

    unfoldable pub write_text : Value Float → Checked (Written Float)
    write_text (text s) = accepted (str_value s)
    write_text (flag b) = slot_action_error
    write_text (integer n) = slot_action_error
    write_text (real x) = slot_action_error
    write_text other = slot_action_error

    -- The branches by datatype.
    unfoldable pub write :
        Datatype → SlotMeta Float → (user_value value : Value Float) → Checked (Written Float)
    write boolean meta user_value value = write_bool (bit_of a upper value)
    write floating meta user_value value = write_float meta user_value value
    write integral meta user_value value = write_int meta user_value value
    write textual meta user_value value = write_text value
    write unknown_datatype meta user_value value = slot_action_error

    unfoldable pub sensor_for : ℤ → ℤ → Checked (Written Float) → Checked (SensorCommand floats)
    sensor_for bus sid written = do w ← written; accepted (sensor_of bus sid w)

    unfoldable pub serialize_for :
        Option (SlotMeta Float) → Action Float → Checked (SensorCommand floats)
    serialize_for none action = slot_action_error
    serialize_for (some meta) action =
        if is_writable meta.wire_mode
        then sensor_for action.component_id action.sensor_id (
            write meta.datatype meta action.value (reverse_transform a action.value meta.transform))
        else slot_action_error

    module _ (slot_meta : ℤ → ℤ → Option (SlotMeta Float)) where
      unfoldable pub serialize_slot_action : Action Float → Checked (SensorCommand floats)
      serialize_slot_action action =
          serialize_for (slot_meta action.component_id action.sensor_id) action

      -- `observed` is none where no slots are given.
      unfoldable pub supported_of :
          Option (ℤ → ℤ → Bool) → Checked (SensorCommand floats) → Checked Bool
      supported_of observed slot_action_error = accepted false
      supported_of observed raised_other = raised_other
      supported_of none (accepted sensor) = accepted true
      supported_of (some observed) (accepted sensor) =
          accepted (observed sensor.bus_id sensor.sensor_id)

      unfoldable pub action_is_supported : Action Float → Option (ℤ → ℤ → Bool) → Checked Bool
      action_is_supported action observed = supported_of observed (serialize_slot_action action)
