-- ===== src/Pia/Requests/Bytes.antt =====
-- What the cloud request builders write, said as the fields of protobuf messages.
use mathlib.Core.List.{append-nil}
use hymer_connect_ha.Prelude.{
  ◌*◌, ◌+◌, ℕ, ◌≡◌, List, [], ◌∷◌, ◌++◌, arith, ◌≤◌, length, length-append,
}
use hymer_connect_ha.Prelude.Int.{pos}
use hymer_connect_ha.Wire.{varint_bytes}
use hymer_connect_ha.Wire.Varint.{varint_bytes_pos}
use hymer_connect_ha.Wire.Fields.{
  Field, varint, delimited, field_bytes, message_bytes, length-field_bytes,
}
use hymer_connect_ha.Pia.Wire.{encode_varint_field, encode_bytes_field}
use hymer_connect_ha.Pia.Wire.Encoding.{encode_varint_field-bytes, encode_bytes_field-bytes}
use hymer_connect_ha.Pia.Requests.{app_protocol_version, request_wrapper, sensor_entry}

-- The wrapper of a request.
abbrev pub wrapper_fields : (id time n : ℕ) → List ℕ → List Field
wrapper_fields id time n topic =
    varint 1 id ∷ delimited 2 app_protocol_version ∷ varint 3 time ∷ delimited n topic ∷ []

-- The bytes of a message of one delimited field.
pub one_field :
    (n : ℕ) (bytes : List ℕ) → encode_bytes_field n bytes ≡ message_bytes (delimited n bytes ∷ [])
unfolding message_bytes
one_field n bytes = rw (encode_bytes_field-bytes n bytes) (rw append-nil)

pub request_wrapper-bytes :
    (id time n : ℕ) (topic : List ℕ)
    → request_wrapper (pos id) (pos time) n topic ≡ message_bytes (wrapper_fields id time n topic)
unfolding request_wrapper message_bytes
request_wrapper-bytes id time n topic =
    rw
      (
        encode_varint_field-bytes 1 id,
        encode_varint_field-bytes 3 time,
        encode_bytes_field-bytes 2 app_protocol_version,
        encode_bytes_field-bytes n topic,
      )
      (rw append-nil)

pub length-wrapper :
    (id time n : ℕ) (topic : List ℕ) → 4 ≤ length (message_bytes (wrapper_fields id time n topic))
unfolding message_bytes
length-wrapper id time n topic =
    let a = field_bytes (varint 1 id) in
    let b = field_bytes (delimited 2 app_protocol_version) in
    let c = field_bytes (varint 3 time) in
    let d = field_bytes (delimited n topic) in
    omega (
      arith,
      length-field_bytes (varint 1 id),
      length-field_bytes (delimited 2 app_protocol_version),
      length-field_bytes (varint 3 time),
      length-field_bytes (delimited n topic),
      length-append a (b ++ (c ++ (d ++ []))),
      length-append b (c ++ (d ++ [])),
      length-append c (d ++ []),
      length-append d [],
    )

-- A key and a length stand before the bytes.
pub length-one_field :
    (n : ℕ) (bytes : List ℕ) → 2 + length bytes ≤ length (message_bytes (delimited n bytes ∷ []))
unfolding message_bytes field_bytes
length-one_field n bytes =
    let key = varint_bytes (n * 8 + 2) in
    let size = varint_bytes (length bytes) in
    omega (
      arith,
      varint_bytes_pos (n * 8 + 2),
      varint_bytes_pos (length bytes),
      length-append key (size ++ bytes),
      length-append size bytes,
      length-append (key ++ (size ++ bytes)) [],
    )

-- A sensor entry with a varint value.
abbrev pub entry_fields : (bus_id sensor_id : ℕ) → Field → List Field
entry_fields bus_id sensor_id f = varint 1 sensor_id ∷ varint 2 bus_id ∷ f ∷ []

pub sensor_entry-bytes :
    (bus_id sensor_id n value : ℕ)
    → sensor_entry (pos bus_id) (pos sensor_id) (encode_varint_field n (pos value))
      ≡ message_bytes (entry_fields bus_id sensor_id (varint n value))
unfolding sensor_entry message_bytes
sensor_entry-bytes bus_id sensor_id n value =
    rw
      (
        encode_varint_field-bytes 1 sensor_id,
        encode_varint_field-bytes 2 bus_id,
        encode_varint_field-bytes n value,
      )
      (rw append-nil)

pub length-entry :
    (bus_id sensor_id n value : ℕ)
    → 3 ≤ length (message_bytes (entry_fields bus_id sensor_id (varint n value)))
unfolding message_bytes
length-entry bus_id sensor_id n value =
    let a = field_bytes (varint 1 sensor_id) in
    let b = field_bytes (varint 2 bus_id) in
    let c = field_bytes (varint n value) in
    omega (
      arith,
      length-field_bytes (varint 1 sensor_id),
      length-field_bytes (varint 2 bus_id),
      length-field_bytes (varint n value),
      length-append a (b ++ (c ++ [])),
      length-append b (c ++ []),
      length-append c [],
    )
