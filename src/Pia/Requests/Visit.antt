-- ===== src/Pia/Requests/Visit.antt =====
-- How the slot decoder goes down through the wrappers of a command.
use hymer_connect_ha.Prelude.{
  ltb, map, ℕ, suc, ◌+◌, ◌≤◌, ◌<◌, ◌≡◌, ◌∙◌, refl, arith, Bool, false, Option, none, some, List, [],
  ◌∷◌, All, length, lt→ltb,
}
use hymer_connect_ha.Wire.Fields.{Field, delimited, message_bytes}
use hymer_connect_ha.Pia.Wire.{
  Floats, decode_protobuf, decode_loop, decode_value, decode_varint, first_number,
}
use hymer_connect_ha.Pia.Wire.Decoding.{raw, IsWide, decode_protobuf-message_bytes}
use hymer_connect_ha.Pia.Slots.{Slots, KnownSlots, extract_slots, entry_or_nested, visit_nested}
use hymer_connect_ha.Pia.Requests.{app_protocol_version}
use hymer_connect_ha.Pia.Requests.Bytes.{wrapper_fields}

module _ (floats : Floats) (is_printable : ℕ → Bool) (known : KnownSlots floats is_printable) where
  abbrev Visit : Type 0
  Visit = ℕ → ℕ → List ℕ → Slots floats is_printable → Slots floats is_printable

  -- The decoder's recursion.
  abbrev pub extract : Visit
  extract = extract_slots floats is_printable known

  -- The version text is no message: its first byte has a wire type that ends the decoding.
  version_ignored :
      (levels depth : ℕ) (slots : Slots floats is_printable)
      → depth ≤ 5
      → extract (suc levels) depth app_protocol_version slots ≡ slots
  unfolding extract_slots entry_or_nested visit_nested first_number decode_protobuf decode_loop
      decode_varint decode_value
  version_ignored levels depth slots h = ground arith

  no_bus :
      (visit : List ℕ → Slots floats is_printable → Slots floats is_printable) (depth : ℕ)
      (raw : List ℕ) (sid : Option ℕ) (slots : Slots floats is_printable)
      → entry_or_nested floats is_printable known visit depth raw sid none slots
        ≡ visit_nested floats is_printable visit (decode_protobuf floats raw) slots
  unfolding entry_or_nested
  no_bus visit depth raw none slots = refl
  no_bus visit depth raw (some sid) slots = refl

  -- A message without a bus id is searched.
  searched :
      (levels depth : ℕ) (fs : List Field) (slots : Slots floats is_printable)
      → depth ≤ 5
      → All IsWide fs
      → first_number floats 2 (map (raw floats) fs) ≡ none
      → extract (suc levels) depth (message_bytes fs) slots
        ≡ visit_nested floats is_printable (extract levels (depth + 1)) (map (raw floats) fs) slots
  unfolding extract_slots
  searched levels depth fs slots h wide e =
      rw (le→ltb depth h, decode_protobuf-message_bytes floats fs wide, e)
        (rw (no_bus (extract levels (depth + 1)) depth (message_bytes fs))
          (rw (decode_protobuf-message_bytes floats fs wide)))
    where
      le→ltb : (d : ℕ) → d ≤ 5 → ltb 5 d ≡ false
      le→ltb d h = ground arith

  -- A message of one delimited field is passed through.
  pub one_field_visited :
      (levels depth n : ℕ) (w : List ℕ) (slots : Slots floats is_printable)
      → depth ≤ 5
      → 2 < length w
      → extract (suc levels) depth (message_bytes (delimited n w ∷ [])) slots
        ≡ extract levels (depth + 1) w slots
  unfolding visit_nested first_number
  one_field_visited levels depth n w slots h long =
      searched levels depth (delimited n w ∷ []) slots h (tt, tt) refl
      ∙ rw (lt→ltb 2 (length w) long)

  pub wrapper_visited :
      (levels depth id time n : ℕ) (topic : List ℕ) (slots : Slots floats is_printable)
      → depth + 1 ≤ 5
      → 2 < length topic
      → extract (suc (suc levels)) depth (message_bytes (wrapper_fields id time n topic)) slots
        ≡ extract (suc levels) (depth + 1) topic slots
  unfolding visit_nested first_number
  wrapper_visited levels depth id time n topic slots h long =
      searched (suc levels) depth (wrapper_fields id time n topic) slots (omega arith)
        (tt, (tt, (tt, (tt, tt)))) refl
      ∙ rw (version_ignored levels (depth + 1) slots h, lt→ltb 2 (length topic) long)
