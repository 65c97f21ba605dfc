-- ===== src/Tests/Commands.antt =====
-- Cloud commands as they are sent. base64 is the identity here.
use hymer_connect_ha.Prelude.{
  ℕ, ◌≡◌, refl, arith, Bool, true, false, Option, none, some, List, [], ◌∷◌, leb,
}
use hymer_connect_ha.Prelude.Int.{pos}
use hymer_connect_ha.Prelude.Result.{ok}
use hymer_connect_ha.Pia.Wire.{Floats}
use hymer_connect_ha.Pia.Slots.{flag, integer, decode_pia_slots, is_sentinel_value}
use hymer_connect_ha.Pia.Envelopes.{extract_request_id_from_payload}
use hymer_connect_ha.Pia.Requests.{
  build_light_command, light_value, sensor_value, build_multi_sensor_command, build_refresh_command,
  SensorCommand, sensor_entries,
}
use hymer_connect_ha.Pia.Requests.Ids
use hymer_connect_ha.Pia.Requests.Effect
use hymer_connect_ha.Prelude.{map, ◌+◌}
use hymer_connect_ha.Pia.Subscriptions.{build_subscription_requests}
use hymer_connect_ha.Pia.Subscriptions.Startup

abbrev no_floats : Floats
no_floats = record {
  Float = List ℕ;
  unpack_double = λ bytes. bytes;
  unpack_single = λ bytes. bytes;
  pack_single = λ bytes. ok bytes;
  is_sentinel = λ bytes. false;
}

abbrev shown : ℕ → Bool
shown c = leb 0x20 c

abbrev plain : List ℕ → List ℕ
plain bytes = bytes

abbrev plain_decode : List ℕ → Option (List ℕ)
plain_decode bytes = some bytes

-- What the builders return.
switched_on :
    (command : List ℕ) × (build_light_command plain
        (pos 11)
        (pos 1)
        (some true)
        none
        none
        (pos 7)
        (pos 100)
      ≡ ok command)
unfolding build_light_command light_value
switched_on = (_, refl)

dimmed :
    (command : List ℕ) × (build_light_command plain
        (pos 11)
        (pos 2)
        none
        (some (pos 40))
        none
        (pos 7)
        (pos 100)
      ≡ ok command)
unfolding build_light_command light_value
dimmed = (_, refl)

abbrev heater_sensors : List (SensorCommand no_floats)
heater_sensors =
    record {
      bus_id = pos 34;
      sensor_id = pos 7;
      bool_value = none;
      uint_value = some (pos 21000);
      str_value = none;
      float_value = none;
    }
    ∷ []

heated :
    (command : List ℕ) × (build_multi_sensor_command no_floats plain heater_sensors
        (pos 7)
        (pos 100)
      ≡ ok command)
unfolding build_multi_sensor_command sensor_entries sensor_value
heated = (_, refl)

extract-build_light_command_example :
    extract_request_id_from_payload no_floats plain_decode switched_on.0 ≡ some 7
extract-build_light_command_example =
    Ids.extract-build_light_command no_floats plain plain_decode (pos 11) (pos 1) (some true) none
      none 7 100 switched_on.0 (λ bytes. refl) (omega arith) switched_on.1

extract-build_multi_sensor_command_example :
    extract_request_id_from_payload no_floats plain_decode heated.0 ≡ some 7
extract-build_multi_sensor_command_example =
    Ids.extract-build_multi_sensor_command no_floats plain plain_decode heater_sensors 7 100
      heated.0 (λ bytes. refl) (omega arith) heated.1

extract-build_refresh_command_example :
    extract_request_id_from_payload no_floats plain_decode
      (build_refresh_command plain (pos 10000001) (pos 5) (pos 100))
    ≡ some 10000001
extract-build_refresh_command_example =
    Ids.extract-build_refresh_command no_floats plain plain_decode 10000001 100 (pos 5)
      (λ bytes. refl) (omega arith)

decode-build_light_command_bool_example :
    decode_pia_slots no_floats shown none plain_decode switched_on.0 ≡ ((11, 1), flag true) ∷ []
decode-build_light_command_bool_example =
    Effect.decode-build_light_command_bool no_floats shown none plain plain_decode 11 1 7 100 true
      none switched_on.0 (λ bytes. refl) (omega arith) (omega arith) switched_on.1

no_sentinel : is_sentinel_value no_floats shown (integer 40) ≡ false
unfolding is_sentinel_value
no_sentinel = refl

startup_ids_example :
    (requests : List (List ℕ)) × (build_subscription_requests plain
        (λ n. pos (n + 1))
        (λ n. pos 100)
      ≡ ok requests)
    × (map (extract_request_id_from_payload no_floats plain_decode) requests
        ≡ map (λ n. some (n + 1)) (0 ∷ 1 ∷ 2 ∷ 3 ∷ 4 ∷ 5 ∷ 6 ∷ []))
startup_ids_example =
    Startup.startup_ids no_floats plain plain_decode (λ n. n + 1) (λ n. 100) (λ bytes. refl)
      (λ n. omega arith)
