-- ===== src/Pia/Slots/Clean.antt =====
-- An invariant of the slot decoder: no value that means "no data" is ever stored.
use hymer_connect_ha.Prelude.{
  arith, ◌≢◌, ◌==◌, ◌&&◌, Option, none, some, inr, inl, Bool-cases, if◌then◌else◌, ◌+◌, ℕ, zero,
  suc, List, [], ◌∷◌, ◌≡◌, Bool, true, false, All,
}
use hymer_connect_ha.Pia.Wire.{Floats, RawField, number, bytes, float, decode_protobuf}
use hymer_connect_ha.Pia.Slots.{
  flag, text, real, integer, first_number, some, Option, SlotValue, SensorEntry, Slots, put_slot,
  store_value, store_entry, is_sentinel_value, visit_nested, entry_or_nested, extract_slots,
  visit_top, decode_pia_slots_bytes, KnownSlots, parse_sensor_entry,
}

if_keeps {ℓ} :
    {A : Type ℓ} (P : A → Type 0) (b : Bool) (x y : A) → P x → P y → P (if b then x else y)
if_keeps P true x y hx hy = hx
if_keeps P false x y hx hy = hy

module _ (floats : Floats) (is_printable : ℕ → Bool) where
  -- What every write of a value that is data keeps.
  abbrev KeptByPut : (Slots floats is_printable → Type 0) → Type 0
  KeptByPut P =
      (bus sid : ℕ) (v : SlotValue floats is_printable) (slots : Slots floats is_printable)
      → is_sentinel_value floats is_printable v ≡ false
      → P slots
      → P (put_slot floats is_printable bus sid v slots)

  -- A predicate on slots that every write of data keeps holds of what is decoded.
  module _ (P : Slots floats is_printable → Type 0) (kept : KeptByPut P) where
    abbrev Keeps : (Slots floats is_printable → Slots floats is_printable) → Type 0
    Keeps f = (slots : Slots floats is_printable) → P slots → P (f slots)

    store_value-Keeps :
        (e : SensorEntry floats is_printable) (v : Option (SlotValue floats is_printable))
        → Keeps (store_value floats is_printable e v)
    unfolding store_value
    store_value-Keeps e none slots h = h
    store_value-Keeps e (some v) slots h =
        elim (Bool-cases (is_sentinel_value floats is_printable v)) [
          | inl s ↦ rw s h
          | inr s ↦ rw s (kept e.bus_id e.sensor_id v slots s h)
        ]

    store_entry-Keeps :
        (o : Option (SensorEntry floats is_printable)) → Keeps (store_entry floats is_printable o)
    unfolding store_entry
    store_entry-Keeps none slots h = h
    store_entry-Keeps (some e) slots h = store_value-Keeps e e.value slots h

    visit_nested-Keeps :
        (visit : List ℕ → Slots floats is_printable → Slots floats is_printable)
        (fields : List (RawField floats))
        → ((raw : List ℕ) → Keeps (visit raw))
        → Keeps (visit_nested floats is_printable visit fields)
    unfolding visit_nested
    visit_nested-Keeps visit [] k slots h = h
    visit_nested-Keeps visit ((fn, wt, bytes v) ∷ fields) k slots h =
        visit_nested-Keeps visit fields k _ (if_keeps P _ _ _ (k v slots h) h)
    visit_nested-Keeps visit ((fn, wt, number v) ∷ fields) k slots h =
        visit_nested-Keeps visit fields k slots h
    visit_nested-Keeps visit ((fn, wt, float x) ∷ fields) k slots h =
        visit_nested-Keeps visit fields k slots h

    module _ (known : KnownSlots floats is_printable) where
      entry_or_nested-Keeps :
          (visit : List ℕ → Slots floats is_printable → Slots floats is_printable) (depth : ℕ)
          (raw : List ℕ) (sid bus : Option ℕ)
          → ((raw : List ℕ) → Keeps (visit raw))
          → Keeps (entry_or_nested floats is_printable known visit depth raw sid bus)
      unfolding entry_or_nested
      entry_or_nested-Keeps visit depth raw (some sid) (some bus) k slots h =
          if_keeps P _ _ _ (store_entry-Keeps (parse_sensor_entry floats is_printable raw) slots h)
            (visit_nested-Keeps visit (decode_protobuf floats raw) k slots h)
      entry_or_nested-Keeps visit depth raw none bus k slots h =
          visit_nested-Keeps visit (decode_protobuf floats raw) k slots h
      entry_or_nested-Keeps visit depth raw (some sid) none k slots h =
          visit_nested-Keeps visit (decode_protobuf floats raw) k slots h

      extract_slots-Keeps :
          (levels depth : ℕ) (raw : List ℕ)
          → Keeps (extract_slots floats is_printable known levels depth raw)
      unfolding extract_slots
      extract_slots-Keeps zero depth raw slots h = h
      extract_slots-Keeps (suc levels) depth raw slots h = if_keeps P _ _ _ h (
          entry_or_nested-Keeps (extract_slots floats is_printable known levels (depth + 1)) depth
            raw (first_number floats 1 (decode_protobuf floats raw))
            (first_number floats 2 (decode_protobuf floats raw))
            (extract_slots-Keeps levels (depth + 1)) slots h)

      visit_top-Keeps :
          (fields : List (RawField floats)) → Keeps (visit_top floats is_printable known fields)
      unfolding visit_top
      visit_top-Keeps [] slots h = h
      visit_top-Keeps ((fn, wt, bytes v) ∷ fields) slots h =
          visit_top-Keeps fields _ (if_keeps P _ _ _ (extract_slots-Keeps 6 0 v slots h) h)
      visit_top-Keeps ((fn, wt, number v) ∷ fields) slots h = visit_top-Keeps fields slots h
      visit_top-Keeps ((fn, wt, float x) ∷ fields) slots h = visit_top-Keeps fields slots h

      pub decode_pia_slots_bytes-holds :
          (raw : List ℕ) → P [] → P (decode_pia_slots_bytes floats is_printable known raw)
      unfolding decode_pia_slots_bytes
      decode_pia_slots_bytes-holds raw h = visit_top-Keeps (decode_protobuf floats raw) [] h

  -- No number 32768 or 65535, and no float that is a sentinel.
  pub IsData : SlotValue floats is_printable → Type 0
  IsData (integer n) = (n ≢ 32768) × (n ≢ 65535)
  IsData (real x) = floats.is_sentinel x ≡ false
  IsData (text s) = Unit
  IsData (flag b) = Unit

  sentinel-IsData :
      (v : SlotValue floats is_printable)
      → is_sentinel_value floats is_printable v ≡ false
      → IsData v
  unfolding is_sentinel_value IsData
  sentinel-IsData (integer n) h = ((λ e. ground (arith, e, h)), (λ e. ground (arith, e, h)))
  sentinel-IsData (real x) h = h
  sentinel-IsData (text s) h = tt
  sentinel-IsData (flag b) h = tt

  -- Every stored value is data.
  abbrev pub IsClean : Slots floats is_printable → Type 0
  IsClean slots = All (λ e. IsData e.1) slots

  put_slot-IsClean : KeptByPut IsClean
  unfolding put_slot
  put_slot-IsClean bus sid v [] hv h = (sentinel-IsData v hv, tt)
  put_slot-IsClean bus sid v (((b, s), w) ∷ slots) hv h =
      if_keeps IsClean (b == bus && s == sid) (((b, s), v) ∷ slots)
        (((b, s), w) ∷ put_slot floats is_printable bus sid v slots) (sentinel-IsData v hv, h.1)
        (h.0, put_slot-IsClean bus sid v slots hv h.1)

  -- For every choice of float operations, printable characters and known slots: whatever the
  -- payload, no value among the decoded slots is the number 32768 or 65535, or a float that is a
  -- sentinel, the values that stand for no data.
  pub decode_pia_slots_bytes-IsClean :
      (known : KnownSlots floats is_printable) (raw : List ℕ)
      → IsClean (decode_pia_slots_bytes floats is_printable known raw)
  decode_pia_slots_bytes-IsClean known raw =
      decode_pia_slots_bytes-holds IsClean put_slot-IsClean known raw tt
