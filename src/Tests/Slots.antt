-- ===== src/Tests/Slots.antt =====
-- Sensor entries of a few fields. Floats are their bytes here, and a character prints from space on.
use hymer_connect_ha.Prelude.{
  true, ℕ, ◌≡◌, refl, false, none, some, List, [], ◌∷◌, map, All, leb, Bool, ◌≢◌,
}
use hymer_connect_ha.Prelude.Int.{pos}
use hymer_connect_ha.Prelude.Result.{ok}
use hymer_connect_ha.Wire
use hymer_connect_ha.Wire.Fields.{Field, varint, delimited, fixed32, message_bytes}
use hymer_connect_ha.Response.Envelope.{last_varint}
use hymer_connect_ha.Pia.Wire.{first_number, Floats, encode_varint, decode_protobuf}
use hymer_connect_ha.Pia.Wire.Encoding
use hymer_connect_ha.Pia.Wire.Decoding
use hymer_connect_ha.Pia.Wire.Decoding.{decode_protobuf-message_bytes, IsWide, raw}
use hymer_connect_ha.Pia.Slots.{
  flag, number_candidate, candidate, candidates, entry_of, is_sentinel_value, put_slot, store_value,
  store_entry, visit_nested, accepts, has_value, entry_or_nested, extract_slots, parse_sensor_entry,
  decode_pia_slots_bytes, best_value,
}
use hymer_connect_ha.Pia.Slots.Clean
use hymer_connect_ha.Pia.Slots.Entry
use hymer_connect_ha.Pia.Slots.Entry.{chosen, last_text, last_single, number_or, text_or}

abbrev pub byte_floats : Floats
byte_floats = record {
  Float = List ℕ;
  unpack_double = λ bytes. bytes;
  unpack_single = λ bytes. bytes;
  pack_single = λ bytes. ok bytes;
  is_sentinel = λ bytes. false;
}

abbrev pub prints : ℕ → Bool
prints c = leb 0x20 c

encode_varint-eq-varint_bytes_example : encode_varint (pos 300) ≡ Wire.varint_bytes 300
encode_varint-eq-varint_bytes_example = Encoding.encode_varint-eq-varint_bytes 300

-- A sensor with a uint and a bool.
abbrev sensor_fields : List Field
sensor_fields =
    varint 5 1 ∷ varint 1 2 ∷ varint 2 11 ∷ varint 3 0 ∷ fixed32 8 (1 ∷ 2 ∷ 3 ∷ 4 ∷ []) ∷ []

sensor_fits : All IsWide sensor_fields
sensor_fits = (tt, (tt, (tt, (tt, (refl, tt)))))

decode_protobuf-message_bytes_example :
    decode_protobuf byte_floats (message_bytes sensor_fields) ≡ map (raw byte_floats) sensor_fields
decode_protobuf-message_bytes_example =
    Decoding.decode_protobuf-message_bytes byte_floats sensor_fields sensor_fits

some_value : chosen byte_floats prints sensor_fields ≢ none
unfolding chosen last_text last_single last_varint best_value
some_value e = cc

parse_sensor_entry-message_example :
    parse_sensor_entry byte_floats prints (message_bytes sensor_fields)
    ≡ some (record {
      sensor_id = number_or (last_varint 1 sensor_fields) 0;
      bus_id = number_or (last_varint 2 sensor_fields) 0;
      bus_name = text_or (last_text byte_floats prints 10 sensor_fields) [];
      value = chosen byte_floats prints sensor_fields;
    })
parse_sensor_entry-message_example =
    Entry.parse_sensor_entry-message byte_floats prints sensor_fields sensor_fits some_value

decode_pia_slots_bytes-IsClean_example : Clean.IsClean byte_floats prints (
    decode_pia_slots_bytes byte_floats prints none
      (message_bytes (delimited 2 (message_bytes sensor_fields) ∷ [])))
decode_pia_slots_bytes-IsClean_example =
    Clean.decode_pia_slots_bytes-IsClean byte_floats prints none
      (message_bytes (delimited 2 (message_bytes sensor_fields) ∷ []))

-- A message that looks like an entry, but has the id 2000, is searched for entries.
abbrev lamp_fields : List Field
lamp_fields = varint 1 2 ∷ varint 2 11 ∷ varint 5 1 ∷ []

abbrev wide_fields : List Field
wide_fields = varint 1 2000 ∷ varint 2 5 ∷ varint 3 1 ∷ delimited 4 (message_bytes lamp_fields) ∷ []

wide_read :
    decode_protobuf byte_floats (message_bytes wide_fields) ≡ map (raw byte_floats) wide_fields
wide_read =
    Decoding.decode_protobuf-message_bytes byte_floats wide_fields (tt, (tt, (tt, (tt, tt))))

lamp_read :
    decode_protobuf byte_floats (message_bytes lamp_fields) ≡ map (raw byte_floats) lamp_fields
lamp_read = Decoding.decode_protobuf-message_bytes byte_floats lamp_fields (tt, (tt, (tt, tt)))

wide_id_passed :
    extract_slots byte_floats prints none 6 0 (message_bytes wide_fields) []
    ≡ ((11, 2), flag true) ∷ []
unfolding extract_slots entry_or_nested first_number has_value accepts visit_nested store_entry
    store_value put_slot is_sentinel_value parse_sensor_entry entry_of best_value candidates
    candidate number_candidate message_bytes hymer_connect_ha.Wire.Fields.field_bytes
    Wire.varint_bytes Wire.varint_loop
wide_id_passed = rw wide_read (rw wide_read (rw lamp_read (rw lamp_read)))
