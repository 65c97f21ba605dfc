-- ===== src/SlotActions/Sound.antt =====
-- A serialized action writes what the metadata of its slot allows, slot_actions.py.
use mathlib.Core.Path.{subst}
use hymer_connect_ha.Prelude.{
  ◌≢◌, ◌∙◌, ap, sym, inr, inl, List, ℕ, Bool, true, false, Option, none, some, ◌≡◌, refl,
  if◌then◌else◌, Bool-cases,
}
use hymer_connect_ha.Prelude.Int.{ℤ, pos, negsuc}
use hymer_connect_ha.Pia.Wire.{Floats}
use hymer_connect_ha.Pia.Requests.{SensorCommand}
use hymer_connect_ha.SlotActions.{
  read_only, ◌>>=◌, Arithmetic, Value, flag, integer, real, text, other, Datatype, boolean,
  floating, integral, textual, unknown_datatype, SlotMeta, Action, Checked, accepted,
  slot_action_error, raised_other, is_writable, reverse_transform, float_of, not_below, not_above,
  validate_numeric_range, is_number, natural, integer_of, bit_of,
}
use hymer_connect_ha.SlotActions.Meaning.{
  Reversed, StandsFor, IsFloat, IsNumber, AtLeast, AtMost, not_below-AtLeast, not_above-AtMost,
  is_number-IsNumber, float_of-IsFloat, reverse_transform-Reversed, bit_of-StandsFor, writable_inv,
}
use hymer_connect_ha.SlotActions.Serialize.{
  Written, bool_value, float_value, uint_value, str_value, sensor_of, write_bool, write_real,
  write_float, write_integer, write_int, write_text, write, sensor_for, serialize_for,
  serialize_slot_action,
}

-- What a chain that succeeded went through.
pub bind_inv :
    {A B : Type 0} (m : Checked A) (f : A → Checked B) (b : B)
    → (m >>= f) ≡ accepted b
    → (x : A) × (m ≡ accepted x) × (f x ≡ accepted b)
bind_inv (accepted x) f b h = (x, refl, h)
bind_inv slot_action_error f b h = cc
bind_inv raised_other f b h = cc

if_inv :
    {A : Type 0} (t : Bool) (m : Checked A) (b : A)
    → (if t then m else slot_action_error) ≡ accepted b
    → (t ≡ true) × (m ≡ accepted b)
if_inv true m b h = (refl, h)
if_inv false m b h = cc

pub accepted_injective : {A : Type 0} {x y : A} → accepted x ≡ accepted y → x ≡ y
accepted_injective e = cc

module _ (floats : Floats) (a : Arithmetic floats.Float) (upper : List ℕ → List ℕ) where
  open floats use {Float}

  -- The user's value is a number that is not below a minimum and not above a maximum that is given.
  pub record InRange (meta : SlotMeta Float) (user_value : Value Float) : Type 0 where
    pub numeric : Float
    pub is_numeric : IsFloat a user_value numeric
    pub above_minimum : AtLeast a meta.min_value numeric
    pub below_maximum : AtMost a meta.max_value numeric

  -- What may be written into a slot of a datatype, for a user's value and the wire value.
  pub data Allowed (meta : SlotMeta Float) (user_value value : Value Float)
      : Datatype → Written Float → Type 0 where
    allowed_bool :
        {b : Bool}
        → StandsFor a upper value b
        → Allowed meta user_value value boolean (bool_value b)
    allowed_float :
        {x : Float}
        → IsNumber a value
        → IsFloat a value x
        → InRange meta user_value
        → Allowed meta user_value value floating (float_value x)
    allowed_int :
        {n : ℕ} {x : Float}
        → IsNumber a value
        → IsFloat a value x
        → a.is_integer x ≡ true
        → a.to_int x ≡ pos n
        → InRange meta user_value
        → Allowed meta user_value value integral (uint_value (pos n))
    allowed_text :
        {s : List ℕ} → value ≡ text s → Allowed meta user_value value textual (str_value s)

  -- The range check, as it stands before a last step.
  validated :
      (meta : SlotMeta Float) (user_value : Value Float) (x : Float)
      → float_of a user_value ≡ accepted x
      → (b : Bool) → validate_numeric_range a x meta.min_value meta.max_value ≡ accepted b
      → InRange meta user_value
  unfolding validate_numeric_range
  validated meta user_value x e b checked = elim (Bool-cases (not_below a x meta.min_value)) [
    | inl low ↦ elim (Bool-cases (not_above a x meta.max_value)) [
      | inl high ↦ record {
        numeric = x;
        is_numeric = float_of-IsFloat a user_value x e;
        above_minimum = not_below-AtLeast a x meta.min_value low;
        below_maximum = not_above-AtMost a x meta.max_value high;
      }
      | inr over ↦ absurd (cc (rw (low, over) at checked))
    ]
    | inr under ↦ absurd (cc (rw under at checked))
  ]

  write_bool-Allowed :
      (meta : SlotMeta Float) (user_value value : Value Float) (found : Option Bool)
      (w : Written Float)
      → bit_of a upper value ≡ found
      → write_bool floats a upper found ≡ accepted w
      → Allowed meta user_value value boolean w
  unfolding write_bool
  write_bool-Allowed meta user_value value none w e h = cc
  write_bool-Allowed meta user_value value (some b) w e h =
      subst (Allowed meta user_value value boolean) (accepted_injective h)
        (allowed_bool (bit_of-StandsFor a upper value b e))

  write_real-Allowed :
      (meta : SlotMeta Float) (user_value value : Value Float) (w : Written Float)
      → is_number a value ≡ true
      → write_real floats a upper meta user_value value ≡ accepted w
      → Allowed meta user_value value floating w
  unfolding write_real
  write_real-Allowed meta user_value value w numeric h =
      let (user, e, h1) = bind_inv (float_of a user_value) _ w h in
      let (b, checked, h2) =
        bind_inv (validate_numeric_range a user meta.min_value meta.max_value) _ w h1 in
      let (x, e', h3) = bind_inv (float_of a value) _ w h2 in
      subst (Allowed meta user_value value floating) (accepted_injective h3) (
        allowed_float (is_number-IsNumber a value numeric) (float_of-IsFloat a value x e')
          (validated meta user_value user e b checked))

  natural_inv : (n m : ℤ) → natural a n ≡ accepted m → (k : ℕ) × (n ≡ pos k) × (m ≡ pos k)
  unfolding natural
  natural_inv (pos k) m h = (k, refl, sym (accepted_injective h))
  natural_inv (negsuc k) m h = cc

  write_integer-Allowed :
      (meta : SlotMeta Float) (user_value value : Value Float) (w : Written Float)
      → is_number a value ≡ true
      → write_integer floats a upper meta user_value value ≡ accepted w
      → Allowed meta user_value value integral w
  unfolding write_integer integer_of
  write_integer-Allowed meta user_value value w numeric h =
      let (n, e0, h0) = bind_inv (integer_of a value) _ w h in
      let (user, e, h1) = bind_inv (float_of a user_value) _ w h0 in
      let (b, checked, h2) =
        bind_inv (validate_numeric_range a user meta.min_value meta.max_value) _ w h1 in
      let (x, e', i) = bind_inv (float_of a value) _ n e0 in
      let (whole, i') = if_inv (a.is_integer x) _ n i in
      let (k, is_k, n_is_k) = natural_inv (a.to_int x) n i' in
      subst (Allowed meta user_value value integral)
        (ap uint_value (sym n_is_k) ∙ accepted_injective h2)
        (allowed_int (is_number-IsNumber a value numeric) (float_of-IsFloat a value x e') whole is_k
          (validated meta user_value user e b checked))

  write_text-Allowed :
      (meta : SlotMeta Float) (user_value value : Value Float) (w : Written Float)
      → write_text floats a upper value ≡ accepted w
      → Allowed meta user_value value textual w
  unfolding write_text
  write_text-Allowed meta user_value (text s) w h =
      subst (Allowed meta user_value (text s) textual) (accepted_injective h) (allowed_text refl)
  write_text-Allowed meta user_value (flag b) w h = cc
  write_text-Allowed meta user_value (integer n) w h = cc
  write_text-Allowed meta user_value (real x) w h = cc
  write_text-Allowed meta user_value other w h = cc

  write-Allowed :
      (datatype : Datatype) (meta : SlotMeta Float) (user_value value : Value Float)
      (w : Written Float)
      → write floats a upper datatype meta user_value value ≡ accepted w
      → Allowed meta user_value value datatype w
  unfolding write write_float write_int
  write-Allowed boolean meta user_value value w h =
      write_bool-Allowed meta user_value value (bit_of a upper value) w refl h
  write-Allowed floating meta user_value value w h =
      let (numeric, h') = if_inv (is_number a value) _ w h in
      write_real-Allowed meta user_value value w numeric h'
  write-Allowed integral meta user_value value w h =
      let (numeric, h') = if_inv (is_number a value) _ w h in
      write_integer-Allowed meta user_value value w numeric h'
  write-Allowed textual meta user_value value w h = write_text-Allowed meta user_value value w h
  write-Allowed unknown_datatype meta user_value value w h = cc

  -- The command writes one value into a slot.
  pub data Writes (bus sid : ℤ) : Written Float → SensorCommand floats → Type 0 where
    writes_bool :
        {b : Bool} {sensor : SensorCommand floats}
        → sensor ≡ record {
          bus_id = bus;
          sensor_id = sid;
          bool_value = some b;
          uint_value = none;
          str_value = none;
          float_value = none;
        }
        → Writes bus sid (bool_value b) sensor
    writes_float :
        {x : Float} {sensor : SensorCommand floats}
        → sensor ≡ record {
          bus_id = bus;
          sensor_id = sid;
          bool_value = none;
          uint_value = none;
          str_value = none;
          float_value = some x;
        }
        → Writes bus sid (float_value x) sensor
    writes_uint :
        {n : ℤ} {sensor : SensorCommand floats}
        → sensor ≡ record {
          bus_id = bus;
          sensor_id = sid;
          bool_value = none;
          uint_value = some n;
          str_value = none;
          float_value = none;
        }
        → Writes bus sid (uint_value n) sensor
    writes_str :
        {s : List ℕ} {sensor : SensorCommand floats}
        → sensor ≡ record {
          bus_id = bus;
          sensor_id = sid;
          bool_value = none;
          uint_value = none;
          str_value = some s;
          float_value = none;
        }
        → Writes bus sid (str_value s) sensor

  sensor_of-Writes :
      (bus sid : ℤ) (w : Written Float) (sensor : SensorCommand floats)
      → sensor ≡ sensor_of floats bus sid w
      → Writes bus sid w sensor
  unfolding sensor_of
  sensor_of-Writes bus sid (bool_value b) sensor e = writes_bool e
  sensor_of-Writes bus sid (float_value x) sensor e = writes_float e
  sensor_of-Writes bus sid (uint_value n) sensor e = writes_uint e
  sensor_of-Writes bus sid (str_value s) sensor e = writes_str e

  module _ (slot_meta : ℤ → ℤ → Option (SlotMeta Float)) where
    -- The command is for the slot of the action, which is known and writable, and writes one value
    -- that its metadata allows for the wire value of the action's.
    abbrev pub IsSerialized : Action Float → SensorCommand floats → Type 0
    IsSerialized action sensor =
        (meta : SlotMeta Float) × (value : Value Float) × (w : Written Float) × (slot_meta
            action.component_id action.sensor_id
          ≡ some meta)
        × (meta.wire_mode ≢ read_only)
        × Reversed a action.value meta.transform value
        × Allowed meta action.value value meta.datatype w
        × Writes action.component_id action.sensor_id w sensor

    serialize_for-inv :
        (found : Option (SlotMeta Float)) (action : Action Float) (sensor : SensorCommand floats)
        → slot_meta action.component_id action.sensor_id ≡ found
        → serialize_for floats a upper found action ≡ accepted sensor
        → IsSerialized action sensor
    unfolding serialize_for sensor_for
    serialize_for-inv none action sensor e h = cc
    serialize_for-inv (some meta) action sensor e h =
        let (writable, h') = if_inv (is_writable meta.wire_mode) _ sensor h in
        let (w, written, h'') =
          bind_inv
            (write floats a upper meta.datatype meta action.value
              (reverse_transform a action.value meta.transform))
            _ sensor h' in
        (
          meta,
          reverse_transform a action.value meta.transform,
          w,
          e,
          writable_inv meta.wire_mode writable,
          reverse_transform-Reversed a action.value meta.transform,
          write-Allowed meta.datatype meta action.value _ w written,
          sensor_of-Writes action.component_id action.sensor_id w sensor
              (sym (accepted_injective h'')),
        )

    -- Where an action is serialized, its slot is known and not read-only, and the command is for
    -- that slot and writes one value. The wire value is the user value times 10, 100, 1000 or 3600,
    -- or 100 minus it, as the transform says, or else the user value; and written is, as the
    -- datatype says: the Boolean that the wire value stands for, as a bit or as one of eleven
    -- texts; the wire value, a number, as a float; what int() gives for that float, where it is
    -- whole and not negative; or the wire text. For numbers the user value is not below a minimum
    -- and not above a maximum that is given.
    pub serialize_slot_action-IsSerialized :
        (action : Action Float) (sensor : SensorCommand floats)
        → serialize_slot_action floats a upper slot_meta action ≡ accepted sensor
        → IsSerialized action sensor
    unfolding serialize_slot_action
    serialize_slot_action-IsSerialized action sensor h =
        serialize_for-inv (slot_meta action.component_id action.sensor_id) action sensor refl h
