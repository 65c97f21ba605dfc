-- ===== src/Session/Requests.antt =====
-- The commands of HymerBleTransport and the mapping of their values, in ble_transport.py. Random ids
-- and the clock are arguments, and so is what a write raises.
use hymer_connect_ha.Prelude.{
  ℕ, Bool, true, false, Option, none, some, List, [], ◌∷◌, if◌then◌else◌,
}
use hymer_connect_ha.Prelude.Int.{ℤ}
use hymer_connect_ha.Prelude.Result.{Error, transport_error, Result, ok, err, ◌>>=◌}
use hymer_connect_ha.Message.{
  Str, build_connected_component_value, build_set_values_ble_pia_frame,
  build_pair_mobile_ble_pia_frame, build_pair_mobile_confirmation_ble_pia_frame, app_pia_version,
}
use hymer_connect_ha.Response.{
  BleResponse, BlePairMobileResponse, succeeded, decode_ble_response_frame,
  decode_pair_mobile_response_frame,
}
use hymer_connect_ha.Session.{
  Stream, Waited, Connection, connected, tls_established, write_plaintext, and_then, and_wait,
  await_answer, judge_response, judge_pair, accepted_status,
}

module _ {Float : Type 0} (pack : Float → Result (List ℕ)) (parse_hex : Str → Option ℕ) where
  pub values_from_light_args :
      (bus_id sensor_id : ℤ) → Option Bool → Option ℤ → Option Str → Result (List ℕ)
  values_from_light_args bus_id sensor_id bool_value uint_value str_value =
      build_connected_component_value pack parse_hex (record {
        value_id = sensor_id;
        component_id = bus_id;
        int_value = uint_value;
        string_value = str_value;
        bool_value = bool_value;
        float_value = none;
        instance_name = none;
      })

  -- A sensor dict, its values converted; a key that is missing is none.
  pub record Sensor : Type 0 where
    pub bus_id : ℤ
    pub sensor_id : ℤ
    pub instance_name : Option Str
    pub bool_value : Option Bool
    pub uint_value : Option ℤ
    pub int_value : Option ℤ
    pub float_value : Option Float
    pub str_value : Option Str

  -- The value argument for the first key that is there: bool, uint, int, float, str.
  pub record ValueArgument : Type 0 where
    pub bool_argument : Option Bool
    pub int_argument : Option ℤ
    pub float_argument : Option Float
    pub string_argument : Option Str

  pub value_argument :
      Option Bool → Option ℤ → Option ℤ → Option Float → Option Str → Result ValueArgument
  value_argument (some b) u i x s = ok (record {
    bool_argument = some b;
    int_argument = none;
    float_argument = none;
    string_argument = none;
  })
  value_argument none (some u) i x s = ok (record {
    bool_argument = none;
    int_argument = some u;
    float_argument = none;
    string_argument = none;
  })
  value_argument none none (some i) x s = ok (record {
    bool_argument = none;
    int_argument = some i;
    float_argument = none;
    string_argument = none;
  })
  value_argument none none none (some x) s = ok (record {
    bool_argument = none;
    int_argument = none;
    float_argument = some x;
    string_argument = none;
  })
  value_argument none none none none (some s) = ok (record {
    bool_argument = none;
    int_argument = none;
    float_argument = none;
    string_argument = some s;
  })
  value_argument none none none none none = err transport_error

  pub value_from_sensor_dict : Sensor → Result (List ℕ)
  value_from_sensor_dict s = do
    given ← value_argument s.bool_value s.uint_value s.int_value s.float_value s.str_value
    build_connected_component_value pack parse_hex (record {
      value_id = s.sensor_id;
      component_id = s.bus_id;
      int_value = given.int_argument;
      string_value = given.string_argument;
      bool_value = given.bool_argument;
      float_value = given.float_argument;
      instance_name = s.instance_name;
    })

  pub values_from_sensors : List Sensor → Result (List (List ℕ))
  values_from_sensors [] = ok []
  values_from_sensors (s ∷ sensors) = do
    value ← value_from_sensor_dict s
    values ← values_from_sensors sensors
    ok (value ∷ values)

module _ (crc32 : List ℕ → ℕ) where
  unfoldable pub send_frame_await_response :
      Connection → ℤ → Option Error → Stream → Waited BleResponse
  send_frame_await_response c request_id write_error stream =
      and_then (write_plaintext c write_error) stream (λ _.
        await_answer
          (λ frame. judge_response request_id (decode_ble_response_frame crc32 true frame))
          stream.events stream.frame_buffer stream.pending_frames)

  unfoldable pub send_pair_and_await :
      Connection → ℤ → Option Error → Stream → Waited BlePairMobileResponse
  send_pair_and_await c request_id write_error stream =
      and_then (write_plaintext c write_error) stream (λ _.
        await_answer
          (λ frame.
            judge_pair request_id (decode_pair_mobile_response_frame crc32 true frame)
              (decode_ble_response_frame crc32 true frame))
          stream.events stream.frame_buffer stream.pending_frames)

  -- `drawn` is the random request id and `now` the clock.
  unfoldable pub send_values :
      (drawn now : ℤ) → Connection → List (List ℕ) → Option Error → Stream → Waited Bool
  send_values drawn now c values write_error stream =
      if connected c
      then and_then
          (build_set_values_ble_pia_frame crc32 drawn now values none none app_pia_version) stream
          (λ built.
            and_wait (send_frame_await_response c built.1 write_error stream)
              (λ response stream'. (ok (succeeded response), stream')))
      else (err transport_error, stream)

  pub send_light_command :
      {Float : Type 0}
      → (Float → Result (List ℕ))
      → (Str → Option ℕ)
      → (drawn now : ℤ) → Connection
      → (bus_id sensor_id : ℤ) → Option Bool
      → Option ℤ
      → Option Str
      → Option Error
      → Stream
      → Waited Bool
  send_light_command pack parse_hex drawn now c bus_id sensor_id b u s write_error stream =
      and_then (values_from_light_args pack parse_hex bus_id sensor_id b u s) stream
        (λ value. send_values drawn now c (value ∷ []) write_error stream)

  pub send_multi_sensor_command :
      {Float : Type 0}
      → (pack : Float → Result (List ℕ)) → (parse_hex : Str → Option ℕ) → (drawn now : ℤ)
      → Connection
      → List (Sensor pack parse_hex)
      → Option Error
      → Stream
      → Waited Bool
  send_multi_sensor_command pack parse_hex drawn now c [] write_error stream = (ok true, stream)
  send_multi_sensor_command pack parse_hex drawn now c (s ∷ sensors) write_error stream =
      and_then (values_from_sensors pack parse_hex (s ∷ sensors)) stream
        (λ values. send_values drawn now c values write_error stream)

  -- The confirmation has a request id of its own and is not answered.
  unfoldable pub confirm_pairing :
      Bool
      → (confirm_drawn now : ℤ) → Connection
      → Option Error
      → BlePairMobileResponse
      → Stream
      → Waited BlePairMobileResponse
  confirm_pairing false confirm_drawn now c write_error response stream = (ok response, stream)
  confirm_pairing true confirm_drawn now c write_error response stream =
      and_then
        (build_pair_mobile_confirmation_ble_pia_frame crc32 confirm_drawn now none none
          app_pia_version true)
        stream
        (λ frame. and_then (write_plaintext c write_error) stream (λ _. (ok response, stream)))

  unfoldable pub pair_mobile :
      (drawn confirm_drawn now : ℤ)
      → Connection
      → (activation_token confirmation_token mobile_device_name : Str) → (send_confirmation : Bool)
      → (write_error confirm_error : Option Error) → Stream
      → Waited BlePairMobileResponse
  pair_mobile drawn confirm_drawn now c activation confirmation name send_confirmation write_error
        confirm_error stream =
      if tls_established c
      then and_then
          (build_pair_mobile_ble_pia_frame crc32 drawn now activation confirmation name (some drawn)
            none app_pia_version true)
          stream
          (λ frame. and_wait (send_pair_and_await c drawn write_error stream) (λ response stream'.
            if accepted_status response.status
            then confirm_pairing send_confirmation confirm_drawn now c confirm_error response
                stream'
            else (err transport_error, stream')))
      else (err transport_error, stream)
