-- ===== src/Pia/Requests.antt =====
-- The request builders of pia_decoder.py. base64 is a parameter; a drawn request id and the clock are
-- arguments. `None` arguments and missing keys are options.
pub mod Bytes
pub mod Ids
pub mod Visit
pub mod Effect
use hymer_connect_ha.Prelude.{ℕ, Bool, Option, none, some, List, [], ◌∷◌, ◌++◌, if◌then◌else◌}
use hymer_connect_ha.Prelude.Int.{ℤ, pos}
use hymer_connect_ha.Prelude.Result.{Result, ok, ◌>>=◌}
use hymer_connect_ha.Pia.Wire.{
  Floats, encode_varint_field, encode_bytes_field, encode_str_field, encode_float_field,
}

-- "v0.32.0", and its UTF-8
abbrev pub app_protocol_version : List ℕ
app_protocol_version = 0x76 ∷ 0x30 ∷ 0x2e ∷ 0x33 ∷ 0x32 ∷ 0x2e ∷ 0x30 ∷ []

abbrev pub app_request_id_max : ℕ
app_request_id_max = 10000000

abbrev pub keepalive_request_id_min : ℕ
keepalive_request_id_min = 10000001

abbrev pub keepalive_request_id_max : ℕ
keepalive_request_id_max = 10999999

-- `1 if value else 0`
abbrev one_if : Bool → ℤ
one_if b = if b then pos 1 else pos 0

-- The id, version, timestamp and topic of a request.
pub request_wrapper : ℤ → ℤ → ℕ → List ℕ → List ℕ
request_wrapper request_id timestamp topic_field_number topic_payload =
    encode_varint_field 1 request_id
    ++ (encode_bytes_field 2 app_protocol_version
        ++ (encode_varint_field 3 timestamp ++ encode_bytes_field topic_field_number topic_payload))

-- The value of a light command: str, bool, else uint.
unfoldable pub light_value : Option Bool → Option ℤ → Option (List ℕ) → Result (List ℕ)
light_value b u (some s) = encode_str_field 4 s
light_value (some b) u none = ok (encode_varint_field 5 (one_if b))
light_value none (some u) none = ok (encode_varint_field 3 u)
light_value none none none = ok []

pub sensor_entry : ℤ → ℤ → List ℕ → List ℕ
sensor_entry bus_id sensor_id value =
    encode_varint_field 1 sensor_id ++ (encode_varint_field 2 bus_id ++ value)

unfoldable pub build_subscription_entry : ℤ → ℤ → Option (List ℕ) → Result (List ℕ)
build_subscription_entry sensor_id bus_id none =
    ok (encode_bytes_field 1 (sensor_entry bus_id sensor_id []))
build_subscription_entry sensor_id bus_id (some []) =
    ok (encode_bytes_field 1 (sensor_entry bus_id sensor_id []))
build_subscription_entry sensor_id bus_id (some (c ∷ name)) = do
  bus_name ← encode_str_field 10 (c ∷ name)
  ok (encode_bytes_field 1 (sensor_entry bus_id sensor_id bus_name))

module _ (b64encode : List ℕ → List ℕ) where
  unfoldable pub build_light_command :
      ℤ → ℤ → Option Bool → Option ℤ → Option (List ℕ) → (msg_id ts : ℤ) → Result (List ℕ)
  build_light_command bus_id sensor_id bool_value uint_value str_value msg_id ts = do
    value ← light_value bool_value uint_value str_value
    let inner = encode_bytes_field 2 (encode_bytes_field 1 (sensor_entry bus_id sensor_id value))
    ok (b64encode (encode_bytes_field 2 (request_wrapper msg_id ts 4 inner)))

  -- `drawn` is the random id that is used where none is given.
  unfoldable pub build_subscription_request : ℕ → List ℕ → Option ℤ → (drawn now : ℤ) → List ℕ
  build_subscription_request topic_field_number topic_payload none drawn now =
      b64encode (encode_bytes_field 2 (request_wrapper drawn now topic_field_number topic_payload))
  build_subscription_request topic_field_number topic_payload (some request_id) drawn now =
      b64encode
        (encode_bytes_field 2 (request_wrapper request_id now topic_field_number topic_payload))

  -- The envelope of a command topic has no outer field.
  pub build_cloud_request : ℕ → List ℕ → (request_id timestamp : ℤ) → List ℕ
  build_cloud_request topic_field_number topic_payload request_id timestamp =
      b64encode (request_wrapper request_id timestamp topic_field_number topic_payload)

  pub build_restart_system_request : Bool → (request_id timestamp : ℤ) → List ℕ
  build_restart_system_request cold =
      build_cloud_request 9 (encode_bytes_field 2 (encode_varint_field 1 (one_if cold)))

  -- `keepalive_id` is drawn from the keepalive band; the app's own draw is not used.
  pub build_refresh_command : (keepalive_id drawn now : ℤ) → List ℕ
  build_refresh_command keepalive_id = build_subscription_request 9 [] (some keepalive_id)

module _ (floats : Floats) where
  open floats use {Float}

  -- A sensor dict; a key that is missing is none.
  pub record SensorCommand : Type 0 where
    pub bus_id : ℤ
    pub sensor_id : ℤ
    pub bool_value : Option Bool
    pub uint_value : Option ℤ
    pub str_value : Option (List ℕ)
    pub float_value : Option Float

  -- The value of a sensor: bool, uint, str, else float.
  unfoldable pub sensor_value :
      Option Bool → Option ℤ → Option (List ℕ) → Option Float → Result (List ℕ)
  sensor_value (some b) u s x = ok (encode_varint_field 5 (one_if b))
  sensor_value none (some u) s x = ok (encode_varint_field 3 u)
  sensor_value none none (some s) x = encode_str_field 4 s
  sensor_value none none none (some x) = encode_float_field floats 6 x
  sensor_value none none none none = ok []

  unfoldable pub sensor_entries : List SensorCommand → Result (List ℕ)
  sensor_entries [] = ok []
  sensor_entries (s ∷ sensors) = do
    value ← sensor_value s.bool_value s.uint_value s.str_value s.float_value
    rest ← sensor_entries sensors
    ok (encode_bytes_field 1 (sensor_entry s.bus_id s.sensor_id value) ++ rest)

  unfoldable pub build_multi_sensor_command :
      (b64encode : List ℕ → List ℕ) → List SensorCommand → (msg_id ts : ℤ) → Result (List ℕ)
  build_multi_sensor_command b64encode sensors msg_id ts = do
    entries ← sensor_entries sensors
    ok (
        b64encode
          (encode_bytes_field 2 (request_wrapper msg_id ts 4 (encode_bytes_field 2 entries))))
