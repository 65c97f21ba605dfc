-- ===== src/Pia/Requests/Effect.antt =====
-- A light command read by the slot decoder: the slot and the value that it was built for.
use hymer_connect_ha.Prelude.{
  sym, ap, ltb, ℕ, suc, ◌≤◌, ◌<◌, ◌≡◌, ◌∙◌, refl, arith, Bool, true, false, Option, none, some,
  List, [], ◌∷◌, length, not, ◌==◌,
}
use hymer_connect_ha.Prelude.Int.{ℤ, pos}
use hymer_connect_ha.Prelude.Result.{ok-injective, ok}
use hymer_connect_ha.Wire.Fields.{varint, delimited, message_bytes}
use hymer_connect_ha.Pia.Wire.{number, Floats, first_number}
use hymer_connect_ha.Pia.Wire.Decoding.{decode_protobuf-message_bytes}
use hymer_connect_ha.Pia.Slots.{
  SlotValue, flag, integer, Slots, KnownSlots, extract_slots, entry_or_nested, visit_top, has_value,
  accepts, store_entry, store_value, put_slot, is_sentinel_value, parse_sensor_entry, entry_of,
  best_value, candidates, candidate, number_candidate, decode_pia_slots_bytes, decode_pia_slots,
}
use hymer_connect_ha.Pia.Requests.{
  encode_varint_field, encode_bytes_field, request_wrapper, build_light_command, light_value,
  sensor_entry,
}
use hymer_connect_ha.Pia.Requests.Ids.{DecodesAgain}
use hymer_connect_ha.Pia.Requests.Bytes.{
  wrapper_fields, one_field, request_wrapper-bytes, length-one_field, length-entry, entry_fields,
  sensor_entry-bytes,
}
use hymer_connect_ha.Pia.Requests.Visit.{extract, one_field_visited, wrapper_visited}

module _ (floats : Floats) (is_printable : ℕ → Bool) (known : KnownSlots floats is_printable) where
  parsed_bool :
      (bus sid n : ℕ)
      → parse_sensor_entry floats is_printable (message_bytes (entry_fields bus sid (varint 5 n)))
        ≡ some (record {
          sensor_id = sid;
          bus_id = bus;
          bus_name = [];
          value = some (flag (not (n == 0)));
        })
  unfolding parse_sensor_entry entry_of best_value candidates candidate number_candidate
  parsed_bool bus sid n = rw (
      decode_protobuf-message_bytes floats (entry_fields bus sid (varint 5 n)) (tt, (tt, (tt, tt))))

  parsed_uint :
      (bus sid n : ℕ)
      → parse_sensor_entry floats is_printable (message_bytes (entry_fields bus sid (varint 3 n)))
        ≡ some (record { sensor_id = sid; bus_id = bus; bus_name = []; value = some (integer n) })
  unfolding parse_sensor_entry entry_of best_value candidates candidate number_candidate
  parsed_uint bus sid n = rw (
      decode_protobuf-message_bytes floats (entry_fields bus sid (varint 3 n)) (tt, (tt, (tt, tt))))

  accepted :
      (depth bus sid : ℕ)
      → depth ≤ 3
      → bus < 1000
      → sid < 1000
      → accepts floats is_printable known depth bus sid ≡ true
  unfolding accepts
  accepted depth bus sid h hb hs = ground arith

  stored :
      (bus sid : ℕ) (v : SlotValue floats is_printable)
      → is_sentinel_value floats is_printable v ≡ false
      → store_entry floats is_printable
          (some (record { sensor_id = sid; bus_id = bus; bus_name = []; value = some v }))
          []
        ≡ ((bus, sid), v) ∷ []
  unfolding store_entry store_value put_slot
  stored bus sid v e = rw e

  -- An entry with a varint value is stored.
  entry_stored :
      (levels depth bus sid n m : ℕ) (v : SlotValue floats is_printable)
      → depth ≤ 3
      → bus < 1000
      → sid < 1000
      → has_value floats is_printable ((m, 0, number n) ∷ []) ≡ true
      → is_sentinel_value floats is_printable v ≡ false
      → parse_sensor_entry floats is_printable (message_bytes (entry_fields bus sid (varint m n)))
        ≡ some (record { sensor_id = sid; bus_id = bus; bus_name = []; value = some v })
      → extract floats is_printable known
          (suc levels)
          depth
          (message_bytes (entry_fields bus sid (varint m n)))
          []
        ≡ ((bus, sid), v) ∷ []
  unfolding extract_slots entry_or_nested first_number has_value
  entry_stored levels depth bus sid n m v h hb hs some_value clean parsed =
      let fields = entry_fields bus sid (varint m n) in
      rw (shallow depth h, decode_protobuf-message_bytes floats fields (tt, (tt, (tt, tt))))
        (rw
          (
            decode_protobuf-message_bytes floats fields (tt, (tt, (tt, tt))),
            some_value,
            accepted depth bus sid h hb hs,
            parsed,
          )
          (stored bus sid v clean))
    where
      shallow : (d : ℕ) → d ≤ 3 → ltb 5 d ≡ false
      shallow d h = ground arith

  -- The message of a command, from the entry outwards.
  abbrev entry_bytes : (bus sid m n : ℕ) → List ℕ
  entry_bytes bus sid m n = message_bytes (entry_fields bus sid (varint m n))

  abbrev topic_bytes : List ℕ → List ℕ
  topic_bytes entry = message_bytes (delimited 2 (message_bytes (delimited 1 entry ∷ [])) ∷ [])

  -- Down to the entry, at depth 3.
  entry_reached :
      (id time : ℕ) (entry : List ℕ) (slots : Slots floats is_printable)
      → 2 < length entry
      → extract floats is_printable known 6 0
          (message_bytes (wrapper_fields id time 4 (topic_bytes entry)))
          slots
        ≡ extract floats is_printable known 3 3 entry slots
  entry_reached id time entry slots long =
      let sub2 = message_bytes (delimited 1 entry ∷ []) in
      let long' : 2 < length sub2 = omega (arith, length-one_field 1 entry) in
      let long'' : 2 < length (topic_bytes entry) = omega (arith, length-one_field 2 sub2) in
      wrapper_visited floats is_printable known 4 0 id time 4 (topic_bytes entry) slots
        (omega arith) long''
      ∙ one_field_visited floats is_printable known 4 1 2 sub2 slots (omega arith) long'
      ∙ one_field_visited floats is_printable known 3 2 1 entry slots (omega arith) long

  top_visited :
      (w : List ℕ)
      → decode_pia_slots_bytes floats is_printable known (message_bytes (delimited 2 w ∷ []))
        ≡ extract floats is_printable known 6 0 w []
  unfolding decode_pia_slots_bytes visit_top
  top_visited w = rw (decode_protobuf-message_bytes floats (delimited 2 w ∷ []) (tt, tt))

  module _ (b64encode : List ℕ → List ℕ) (b64decode : List ℕ → Option (List ℕ)) where
    -- The text of a command that carries the entry.
    abbrev command_text : (id time : ℕ) → List ℕ → List ℕ
    command_text id time entry = b64encode (
        encode_bytes_field 2 (
          request_wrapper (pos id) (pos time) 4
            (encode_bytes_field 2 (encode_bytes_field 1 entry))))

    command_read :
        (id time : ℕ) (entry : List ℕ)
        → DecodesAgain floats b64encode b64decode
        → 2 < length entry
        → decode_pia_slots floats is_printable known b64decode (command_text id time entry)
          ≡ extract floats is_printable known 3 3 entry []
    unfolding decode_pia_slots
    command_read id time entry again long =
        let w = message_bytes (wrapper_fields id time 4 (topic_bytes entry)) in
        rw
          (
            one_field 1 entry,
            one_field 2 (message_bytes (delimited 1 entry ∷ [])),
            request_wrapper-bytes id time 4 (topic_bytes entry),
            one_field 2 w,
            again (message_bytes (delimited 2 w ∷ [])),
            decode_pia_slots,
          )
          (top_visited w ∙ entry_reached id time entry [] long)

    entry_read :
        (bus_id sensor_id id time m n : ℕ) (v : SlotValue floats is_printable) (command : List ℕ)
        → DecodesAgain floats b64encode b64decode
        → bus_id < 1000
        → sensor_id < 1000
        → has_value floats is_printable ((m, 0, number n) ∷ []) ≡ true
        → is_sentinel_value floats is_printable v ≡ false
        → parse_sensor_entry floats is_printable (entry_bytes bus_id sensor_id m n)
          ≡ some (record { sensor_id = sensor_id; bus_id = bus_id; bus_name = []; value = some v })
        → ok (
            command_text id time
              (sensor_entry (pos bus_id) (pos sensor_id) (encode_varint_field m (pos n))))
          ≡ ok command
        → decode_pia_slots floats is_printable known b64decode command
          ≡ ((bus_id, sensor_id), v) ∷ []
    entry_read bus_id sensor_id id time m n v command again hb hs some_value clean parsed e =
        ap (decode_pia_slots floats is_printable known b64decode) (sym (ok-injective e))
        ∙ rw (sensor_entry-bytes bus_id sensor_id m n) (
            command_read id time (entry_bytes bus_id sensor_id m n) again
              (omega (arith, length-entry bus_id sensor_id m n))
            ∙ entry_stored 2 3 bus_id sensor_id n m v (omega arith) hb hs some_value clean parsed)

    -- For every choice of float operations, printable characters and known slots, and a base64 that
    -- decodes what it encodes: where a light command for a bus and sensor id below 1000 is built
    -- with a bool and no str, with natural request id and time, the slot decoder reads from it
    -- exactly one slot, that of the bus and the sensor, with that bool.
    pub decode-build_light_command_bool :
        (bus_id sensor_id id time : ℕ) (on : Bool) (uint_value : Option ℤ) (command : List ℕ)
        → DecodesAgain floats b64encode b64decode
        → bus_id < 1000
        → sensor_id < 1000
        → build_light_command b64encode
            (pos bus_id)
            (pos sensor_id)
            (some on)
            uint_value
            none
            (pos id)
            (pos time)
          ≡ ok command
        → decode_pia_slots floats is_printable known b64decode command
          ≡ ((bus_id, sensor_id), flag on) ∷ []
    unfolding build_light_command light_value has_value is_sentinel_value
    decode-build_light_command_bool bus_id sensor_id id time true uint_value command again hb hs e =
        entry_read bus_id sensor_id id time 5 1 (flag true) command again hb hs refl refl
          (parsed_bool bus_id sensor_id 1) e
    decode-build_light_command_bool bus_id sensor_id id time false uint_value command again hb hs
          e =
        entry_read bus_id sensor_id id time 5 0 (flag false) command again hb hs refl refl
          (parsed_bool bus_id sensor_id 0) e

    -- Under the same conditions on ids, time and base64: where a light command is built with a
    -- natural uint that is no sentinel, and no bool and no str, the slot decoder reads from it
    -- exactly one slot, that of the bus and the sensor, with that number.
    pub decode-build_light_command_uint :
        (bus_id sensor_id id time n : ℕ) (command : List ℕ)
        → DecodesAgain floats b64encode b64decode
        → bus_id < 1000
        → sensor_id < 1000
        → is_sentinel_value floats is_printable (integer n) ≡ false
        → build_light_command b64encode
            (pos bus_id)
            (pos sensor_id)
            none
            (some (pos n))
            none
            (pos id)
            (pos time)
          ≡ ok command
        → decode_pia_slots floats is_printable known b64decode command
          ≡ ((bus_id, sensor_id), integer n) ∷ []
    unfolding build_light_command light_value has_value
    decode-build_light_command_uint bus_id sensor_id id time n command again hb hs clean e =
        entry_read bus_id sensor_id id time 3 n (integer n) command again hb hs refl clean
          (parsed_uint bus_id sensor_id n) e
