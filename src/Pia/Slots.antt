-- ===== src/Pia/Slots.antt =====
-- The slot decoder of pia_decoder.py: sensor entries anywhere in a message, by (bus_id, sensor_id).
-- `c.isprintable()` and the float operations are parameters; `known_slots` is `None` or a test.
pub mod Entry
pub mod Clean
use hymer_connect_ha.Prelude.{
  ℕ, zero, suc, ◌+◌, Bool, true, false, not, ◌&&◌, ◌||◌, Option, none, some, List, [], ◌∷◌, length,
  ltb, leb, ◌==◌, if◌then◌else◌,
}
use hymer_connect_ha.Prelude.Result.{ok, err, stuck}
use hymer_connect_ha.Prelude.Utf8.{decode_utf8}
use hymer_connect_ha.Pia.Wire.{
  Floats, Raw, RawField, number, bytes, float, decode_protobuf, first_number,
}

module _ (floats : Floats) (is_printable : ℕ → Bool) where
  open floats use {Float, is_sentinel}

  pub data SlotValue : Type 0 where
    text : List ℕ → SlotValue
    integer : ℕ → SlotValue
    flag : Bool → SlotValue
    real : Float → SlotValue

  -- `all(c.isprintable() or c in "\r\n\t" for c in text)`
  pub all_printable : List ℕ → Bool
  all_printable [] = true
  all_printable (c ∷ chars) =
      (is_printable c || c == 0x0d || c == 0x0a || c == 0x09) && all_printable chars

  pub printable_text : List ℕ → Option (List ℕ)
  printable_text [] = none
  printable_text (c ∷ chars) = if all_printable (c ∷ chars) then some (c ∷ chars) else none

  pub try_string : List ℕ → Option (List ℕ)
  try_string raw = elim (decode_utf8 raw) [
    | ok chars ↦ printable_text chars
    | err e ↦ none
    | stuck ↦ none
  ]

  -- The variables of `_parse_sensor_entry`; `values[n]` is the field `value_n`.
  pub record Candidates : Type 0 where
    pub sensor_id : ℕ
    pub bus_id : ℕ
    pub bus_name : List ℕ
    pub value_3 : Option ℕ
    pub value_4 : Option (List ℕ)
    pub value_5 : Option Bool
    pub value_6 : Option Float
    pub value_7 : Option ℕ

  abbrev pub no_candidates : Candidates
  no_candidates = record {
    sensor_id = 0;
    bus_id = 0;
    bus_name = [];
    value_3 = none;
    value_4 = none;
    value_5 = none;
    value_6 = none;
    value_7 = none;
  }

  -- The branches for wire type 0.
  unfoldable pub number_candidate : ℕ → ℕ → Candidates → Candidates
  number_candidate fn v c =
      if fn == 1
      then record c { sensor_id = v }
      else if fn == 2
      then record c { bus_id = v }
      else if fn == 3
      then record c { value_3 = some v }
      else if fn == 5
      then record c { value_5 = some (not (v == 0)) }
      else if fn == 7
      then record c { value_7 = some v }
      else c

  -- The branches for wire type 2, on what `_try_string` gives.
  unfoldable pub text_candidate : ℕ → Option (List ℕ) → Candidates → Candidates
  text_candidate fn none c = c
  text_candidate fn (some s) c =
      if fn == 4
      then record c { value_4 = some s }
      else if fn == 10
      then record c { bus_name = s }
      else c

  unfoldable pub candidate : RawField floats → Candidates → Candidates
  candidate (fn, wt, number v) c = if wt == 0 then number_candidate fn v c else c
  candidate (fn, wt, bytes v) c = if wt == 2 then text_candidate fn (try_string v) c else c
  candidate (fn, wt, float x) c = if fn == 6 && wt == 5 then record c { value_6 = some x } else c

  unfoldable pub candidates : List (RawField floats) → Candidates → Candidates
  candidates [] c = c
  candidates (f ∷ fields) c = candidates fields (candidate f c)

  -- The first that is there of the fields 4, 6, 3, 7, 5.
  unfoldable pub best_value :
      Option (List ℕ) → Option Float → Option ℕ → Option ℕ → Option Bool → Option SlotValue
  best_value (some s) x u i b = some (text s)
  best_value none (some x) u i b = some (real x)
  best_value none none (some u) i b = some (integer u)
  best_value none none none (some i) b = some (integer i)
  best_value none none none none (some b) = some (flag b)
  best_value none none none none none = none

  pub record SensorEntry : Type 0 where
    pub sensor_id : ℕ
    pub bus_id : ℕ
    pub bus_name : List ℕ
    pub value : Option SlotValue

  unfoldable pub entry_of : Candidates → Option SlotValue → Option SensorEntry
  entry_of c none =
      if c.sensor_id == 0
      then none
      else some (record {
        sensor_id = c.sensor_id;
        bus_id = c.bus_id;
        bus_name = c.bus_name;
        value = none;
      })
  entry_of c (some v) =
      some (record {
        sensor_id = c.sensor_id;
        bus_id = c.bus_id;
        bus_name = c.bus_name;
        value = some v;
      })

  unfoldable pub parse_sensor_entry : List ℕ → Option SensorEntry
  parse_sensor_entry raw =
      let c = candidates (decode_protobuf floats raw) no_candidates in
      entry_of c (best_value c.value_4 c.value_6 c.value_3 c.value_7 c.value_5)

  -- `isinstance(val, (int, float)) and val in _FLOAT_SENTINELS`; an int equals a float of its value.
  unfoldable pub is_sentinel_value : SlotValue → Bool
  is_sentinel_value (integer n) = n == 32768 || n == 65535
  is_sentinel_value (real x) = is_sentinel x
  is_sentinel_value (text s) = false
  is_sentinel_value (flag b) = false

  -- The dict of slots, by (bus_id, sensor_id), in order of insertion.
  abbrev pub Slots : Type 0
  Slots = List ((ℕ × ℕ) × SlotValue)

  unfoldable pub put_slot : ℕ → ℕ → SlotValue → Slots → Slots
  put_slot bus sid v [] = ((bus, sid), v) ∷ []
  put_slot bus sid v (((b, s), w) ∷ slots) =
      if b == bus && s == sid then ((b, s), v) ∷ slots else ((b, s), w) ∷ put_slot bus sid v slots

  -- What is done with an accepted entry.
  unfoldable pub store_value : SensorEntry → Option SlotValue → Slots → Slots
  store_value e none slots = slots
  store_value e (some v) slots =
      if is_sentinel_value v then slots else put_slot e.bus_id e.sensor_id v slots

  unfoldable pub store_entry : Option SensorEntry → Slots → Slots
  store_entry none slots = slots
  store_entry (some e) slots = store_value e e.value slots

  -- `any(fn in (3, 4, 5, 6, 7) and wt in (0, 2, 5) …)`
  unfoldable pub has_value : List (RawField floats) → Bool
  has_value [] = false
  has_value ((fn, wt, v) ∷ fields) =
      (leb 3 fn && leb fn 7 && (wt == 0 || wt == 2 || wt == 5)) || has_value fields

  abbrev pub KnownSlots : Type 0
  KnownSlots = Option (ℕ → ℕ → Bool)

  unfoldable pub is_known : KnownSlots → ℕ → ℕ → Bool
  is_known none bus sid = false
  is_known (some known) bus sid = known bus sid

  -- The loop over the fields of a message that is no accepted entry, `visit` being the recursive call.
  unfoldable pub visit_nested : (List ℕ → Slots → Slots) → List (RawField floats) → Slots → Slots
  visit_nested visit [] slots = slots
  visit_nested visit ((fn, wt, bytes v) ∷ fields) slots =
      visit_nested visit fields (if wt == 2 && ltb 2 (length v) then visit v slots else slots)
  visit_nested visit ((fn, wt, number v) ∷ fields) slots = visit_nested visit fields slots
  visit_nested visit ((fn, wt, float x) ∷ fields) slots = visit_nested visit fields slots

  module _ (known : KnownSlots) where
    -- The guard on an entry's first sensor id and bus id.
    unfoldable pub accepts : ℕ → ℕ → ℕ → Bool
    accepts depth bus sid =
        ltb sid 1000 && ltb bus 1000 && (leb depth 3 || (depth == 4 && is_known known bus sid))

    unfoldable pub entry_or_nested :
        (List ℕ → Slots → Slots) → ℕ → List ℕ → Option ℕ → Option ℕ → Slots → Slots
    entry_or_nested visit depth raw (some sid) (some bus) slots =
        if has_value (decode_protobuf floats raw) && accepts depth bus sid
        then store_entry (parse_sensor_entry raw) slots
        else visit_nested visit (decode_protobuf floats raw) slots
    entry_or_nested visit depth raw none bus slots =
        visit_nested visit (decode_protobuf floats raw) slots
    entry_or_nested visit depth raw (some sid) none slots =
        visit_nested visit (decode_protobuf floats raw) slots

    -- `levels` is fuel; the depth grows at each level, and nothing is done below depth 5.
    unfoldable pub extract_slots : ℕ → ℕ → List ℕ → Slots → Slots
    extract_slots zero depth raw slots = slots
    extract_slots (suc levels) depth raw slots =
        if ltb 5 depth
        then slots
        else entry_or_nested (extract_slots levels (depth + 1)) depth raw
            (first_number floats 1 (decode_protobuf floats raw))
            (first_number floats 2 (decode_protobuf floats raw)) slots

    unfoldable pub visit_top : List (RawField floats) → Slots → Slots
    visit_top [] slots = slots
    visit_top ((fn, wt, bytes v) ∷ fields) slots =
        visit_top fields (if wt == 2 then extract_slots 6 0 v slots else slots)
    visit_top ((fn, wt, number v) ∷ fields) slots = visit_top fields slots
    visit_top ((fn, wt, float x) ∷ fields) slots = visit_top fields slots

    unfoldable pub decode_pia_slots_bytes : List ℕ → Slots
    decode_pia_slots_bytes raw = visit_top (decode_protobuf floats raw) []

    -- `b64decode` is none where base64 raises.
    unfoldable pub decode_pia_slots : (List ℕ → Option (List ℕ)) → List ℕ → Slots
    decode_pia_slots b64decode b64_payload = elim (b64decode b64_payload) [
      | none ↦ []
      | some raw ↦ decode_pia_slots_bytes raw
    ]
