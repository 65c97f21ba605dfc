-- ===== src/Message.antt =====
-- The request builders of ble_pia.py. `None` arguments are options; a drawn request id and the clock
-- are arguments too, so that a builder is a function.
pub mod Layout
pub mod Identity
use hymer_connect_ha.Prelude.{
  ℕ, ◌+◌, Bool, true, false, Option, none, some, List, [], ◌∷◌, ◌++◌, ltb, ◌==◌, not, if◌then◌else◌,
}
use hymer_connect_ha.Prelude.Int.{ℤ}
use hymer_connect_ha.Prelude.Result.{Result, ok, err, value_error, ◌>>=◌}
use hymer_connect_ha.Wire.{
  encode_varint_field, encode_bool_field, encode_string_field, encode_int32_field,
  encode_float_field, encode_length_delimited_field,
}
use hymer_connect_ha.Frame.{encode_ble_pia_frame}

-- A `str`, by its code points.
abbrev pub Str : Type 0
Str = List ℕ

-- "v0.32.0"
abbrev pub app_pia_version : Str
app_pia_version = 0x76 ∷ 0x30 ∷ 0x2e ∷ 0x33 ∷ 0x32 ∷ 0x2e ∷ 0x30 ∷ []

-- `given if given is not None else drawn`
abbrev pub or_drawn : Option ℤ → ℤ → ℤ
or_drawn none drawn = drawn
or_drawn (some given) drawn = given

pub build_pair_mobile_request_payload : Str → Str → Str → Bool → Result (List ℕ)
build_pair_mobile_request_payload activation_token confirmation_token mobile_device_name wait = do
  activation ← encode_string_field 1 activation_token
  confirmation ← encode_string_field 2 confirmation_token
  name ← encode_string_field 3 mobile_device_name
  waiting ← encode_bool_field 4 wait
  ok (activation ++ (confirmation ++ (name ++ waiting)))

pub build_pair_mobile_confirmation_payload : Bool → Result (List ℕ)
build_pair_mobile_confirmation_payload success = encode_bool_field 1 success

pub build_user_pair_mobile_request_topic : Str → Str → Str → Bool → Result (List ℕ)
build_user_pair_mobile_request_topic activation_token confirmation_token mobile_device_name wait =
    do
      payload ←
          build_pair_mobile_request_payload activation_token confirmation_token mobile_device_name
            wait
      encode_length_delimited_field 4 payload

pub build_user_pair_mobile_confirmation_topic : Bool → Result (List ℕ)
build_user_pair_mobile_confirmation_topic success = do
  payload ← build_pair_mobile_confirmation_payload success
  encode_length_delimited_field 6 payload

unfoldable pub build_request_message_with_topic : ℕ → List ℕ → ℤ → ℤ → Str → Result (List ℕ)
build_request_message_with_topic topic_field_number topic_payload request_id timestamp version = do
  id ← encode_varint_field 1 request_id
  version' ← encode_string_field 2 version
  time ← encode_varint_field 3 timestamp
  topic ← encode_length_delimited_field topic_field_number topic_payload
  ok (id ++ (version' ++ (time ++ topic)))

pub build_request_message : List ℕ → ℤ → ℤ → Str → Result (List ℕ)
build_request_message = build_request_message_with_topic 8

unfoldable pub build_ble_protocol_request_payload : List ℕ → Result (List ℕ)
build_ble_protocol_request_payload request_message = encode_length_delimited_field 1 request_message

pub build_pair_mobile_ble_protocol_request : Str → Str → Str → ℤ → ℤ → Str → Bool → Result (List ℕ)
build_pair_mobile_ble_protocol_request activation confirmation name request_id timestamp version
      wait =
    do
      topic ← build_user_pair_mobile_request_topic activation confirmation name wait
      message ← build_request_message topic request_id timestamp version
      build_ble_protocol_request_payload message

-- One typed value, the instance and the ids of a ConnectedComponentValue; `Float` is Python's.
pub record ComponentValue {ℓ} (Float : Type ℓ) : Type ℓ where
  pub value_id : ℤ
  pub component_id : ℤ
  pub int_value : Option ℤ
  pub string_value : Option Str
  pub bool_value : Option Bool
  pub float_value : Option Float
  pub instance_name : Option Str

abbrev given {ℓ} : {A : Type ℓ} → Option A → ℕ
given none = 0
given (some a) = 1

-- `len(provided)`
pub provided {ℓ} : {Float : Type ℓ} → ComponentValue Float → ℕ
provided v = given v.int_value + given v.string_value + given v.bool_value + given v.float_value

-- `text.split("-")`, where `part` is what was read of the current part.
pub split_dash : Str → Str → List Str
split_dash part [] = part ∷ []
split_dash part (c ∷ text) =
    if c == 0x2d then part ∷ split_dash [] text else split_dash (part ++ (c ∷ [])) text

-- `[part for part in parts if part != ""]`
pub drop_empty : List Str → List Str
drop_empty [] = []
drop_empty ([] ∷ parts) = drop_empty parts
drop_empty ((c ∷ part) ∷ parts) = (c ∷ part) ∷ drop_empty parts

-- An element of `bytes(…)`: `int(part, 16)`, if it is a number, and a byte.
pub as_byte : Option ℕ → Result ℕ
as_byte none = err value_error
as_byte (some n) = if ltb n 256 then ok n else err value_error

-- `parse_hex` is Python's `int(part, 16)`; a part holds no "-", so the number has no sign.
module _ (parse_hex : Str → Option ℕ) where
  pub bytes_of_parts : List Str → Result (List ℕ)
  bytes_of_parts [] = ok []
  bytes_of_parts (part ∷ parts) = do
    b ← as_byte (parse_hex part)
    bytes ← bytes_of_parts parts
    ok (b ∷ bytes)

  pub instance_string_to_bytes : Str → Result (List ℕ)
  instance_string_to_bytes [] = ok []
  instance_string_to_bytes (c ∷ text) = bytes_of_parts (drop_empty (split_dash [] (c ∷ text)))

  -- The instance is written only if it is given and not empty.
  pub instance_part : Option Str → Result (List ℕ)
  instance_part none = ok []
  instance_part (some []) = ok []
  instance_part (some (c ∷ text)) = do
    bytes ← instance_string_to_bytes (c ∷ text)
    encode_length_delimited_field 10 bytes

-- The branch on the typed value: int, string, bool, else float.
module _ {ℓ} {Float : Type ℓ} (pack : Float → Result (List ℕ)) where
  pub float_part : Option Float → Result (List ℕ)
  float_part none = err value_error
  float_part (some x) = encode_float_field pack 6 x

  pub bool_part : Option Bool → Option Float → Result (List ℕ)
  bool_part none x = float_part x
  bool_part (some b) x = encode_bool_field 5 b

  pub string_part : Option Str → Option Bool → Option Float → Result (List ℕ)
  string_part none b x = bool_part b x
  string_part (some s) b x = encode_string_field 4 s

  pub value_part : Option ℤ → Option Str → Option Bool → Option Float → Result (List ℕ)
  value_part none s b x = string_part s b x
  value_part (some i) s b x = encode_int32_field 3 i

  pub build_connected_component_value : (Str → Option ℕ) → ComponentValue Float → Result (List ℕ)
  unfolding provided
  build_connected_component_value parse_hex v =
      if not (provided v == 1) then err value_error else do
        id ← encode_varint_field 1 v.value_id
        component ← encode_varint_field 2 v.component_id
        value ← value_part v.int_value v.string_value v.bool_value v.float_value
        name ← instance_part parse_hex v.instance_name
        ok (id ++ (component ++ (value ++ name)))

unfoldable pub join_values : List (List ℕ) → Result (List ℕ)
join_values [] = ok []
join_values (value ∷ values) = do
  first ← encode_length_delimited_field 1 value
  rest ← join_values values
  ok (first ++ rest)

unfoldable pub build_set_values_topic : List (List ℕ) → Result (List ℕ)
build_set_values_topic [] = err value_error
build_set_values_topic (value ∷ values) = do
  set_values ← join_values (value ∷ values)
  encode_length_delimited_field 2 set_values

pub build_restart_topic : Bool → Result (List ℕ)
build_restart_topic cold = do
  restart_command ← encode_bool_field 1 cold
  encode_length_delimited_field 2 restart_command

-- The framed builders. `drawn` is the random request id and `now` the clock, used where none is given.
module _ (crc32 : List ℕ → ℕ) (drawn now : ℤ) where
  -- The steps that all of them share: envelope, wrapper and frame.
  unfoldable pub build_topic_frame : ℕ → List ℕ → ℤ → Option ℤ → Str → Result (List ℕ)
  build_topic_frame topic_field_number topic request_id timestamp version = do
    message ←
        build_request_message_with_topic topic_field_number topic request_id
          (or_drawn timestamp now) version
    payload ← build_ble_protocol_request_payload message
    encode_ble_pia_frame crc32 payload

  pub build_pair_mobile_ble_pia_frame :
      Str → Str → Str → Option ℤ → Option ℤ → Str → Bool → Result (List ℕ)
  build_pair_mobile_ble_pia_frame activation confirmation name request_id timestamp version wait =
      do
        payload ←
            build_pair_mobile_ble_protocol_request activation confirmation name
              (or_drawn request_id drawn) (or_drawn timestamp now) version wait
        encode_ble_pia_frame crc32 payload

  pub build_pair_mobile_confirmation_ble_pia_frame :
      Option ℤ → Option ℤ → Str → Bool → Result (List ℕ)
  build_pair_mobile_confirmation_ble_pia_frame request_id timestamp version success = do
    topic ← build_user_pair_mobile_confirmation_topic success
    build_topic_frame 8 topic (or_drawn request_id drawn) timestamp version

  pub build_user_topic_probe_frame : ℕ → List ℕ → Option ℤ → Option ℤ → Str → Result (List ℕ × ℤ)
  build_user_topic_probe_frame field_number payload request_id timestamp version = do
    topic ← encode_length_delimited_field field_number payload
    frame ← build_topic_frame 8 topic (or_drawn request_id drawn) timestamp version
    ok (frame, or_drawn request_id drawn)

  unfoldable pub build_set_values_ble_pia_frame :
      List (List ℕ) → Option ℤ → Option ℤ → Str → Result (List ℕ × ℤ)
  build_set_values_ble_pia_frame values request_id timestamp version = do
    topic ← build_set_values_topic values
    frame ← build_topic_frame 4 topic (or_drawn request_id drawn) timestamp version
    ok (frame, or_drawn request_id drawn)

  pub build_restart_ble_pia_frame : Bool → Option ℤ → Option ℤ → Str → Result (List ℕ × ℤ)
  build_restart_ble_pia_frame cold request_id timestamp version = do
    topic ← build_restart_topic cold
    frame ← build_topic_frame 9 topic (or_drawn request_id drawn) timestamp version
    ok (frame, or_drawn request_id drawn)
