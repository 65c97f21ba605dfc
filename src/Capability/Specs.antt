-- ===== src/Capability/Specs.antt =====
-- The specs that provider_specs.json is read as, capability_resolver.py.
use hymer_connect_ha.Prelude.{Option, none, some, List, [], ◌∷◌}
use hymer_connect_ha.Prelude.Int.{ℤ}
use hymer_connect_ha.SignalR.Json.{
  Json, null, bool, num, other_number, str, arr, obj, Items, nil, cons, Fields, member,
}
use hymer_connect_ha.Capability.{
  ◌>>=◌, SlotCandidate, CapabilitySpec, validate_unique_candidate_slots,
}
use hymer_connect_ha.Capability.Load.{
  require_string, optional_string, string_tuple, or_default, or_defaults, Defaults,
  provider_defaults, write_style_of, platform_of, filled_list,
}

unfoldable pub fields_of : Json → Option Fields
fields_of (obj fields) = some fields
fields_of null = none
fields_of (bool b) = none
fields_of (num n) = none
fields_of other_number = none
fields_of (str s) = none
fields_of (arr items) = none

unfoldable pub items_of : Option Json → Option Items
items_of (some (arr items)) = some items
items_of none = none
items_of (some null) = none
items_of (some (bool b)) = none
items_of (some (num n)) = none
items_of (some other_number) = none
items_of (some (str s)) = none
items_of (some (obj fields)) = none

module _ (as_int : Json → Option ℤ) where
  unfoldable pub candidate_from_dict : Json → Option SlotCandidate
  candidate_from_dict value = do
    payload ← fields_of value
    component ← member "component_id" payload
    component_id ← as_int component
    sensor ← member "sensor_id" payload
    sensor_id ← as_int sensor
    style ← optional_string payload "write_style"
    write_style ← write_style_of style
    transform ← optional_string payload "transform"
    some (record {
      component_id = component_id;
      sensor_id = sensor_id;
      write_style = write_style;
      transform = transform;
    })

  unfoldable pub candidates_from : Items → Option (List SlotCandidate)
  candidates_from nil = some []
  candidates_from (cons value items) = do
    candidate ← candidate_from_dict value
    rest ← candidates_from items
    some (candidate ∷ rest)

  unfoldable pub spec_from_dict : Json → Defaults → Option CapabilitySpec
  spec_from_dict value defaults = do
    payload ← fields_of value
    key ← require_string payload "key"
    platform_text ← require_string payload "platform"
    platform ← platform_of platform_text
    candidates_raw ← filled_list (member "candidates" payload)
    candidates ← candidates_from candidates_raw
    unit ← optional_string payload "unit"
    icon ← optional_string payload "icon"
    sensor_device_class ← optional_string payload "sensor_device_class"
    binary_device_class ← optional_string payload "binary_device_class"
    read ← optional_string payload "read_validation_status"
    write ← optional_string payload "write_validation_status"
    sources ← string_tuple payload "evidence_sources"
    some (record {
      key = key;
      platform = platform;
      candidates = candidates;
      unit = unit;
      icon = icon;
      sensor_device_class = sensor_device_class;
      binary_device_class = binary_device_class;
      read_validation_status = or_default read defaults.read_validation_status;
      write_validation_status = or_default write defaults.write_validation_status;
      evidence_sources = or_defaults sources defaults.evidence_sources;
    })

  unfoldable pub specs_from : Items → Defaults → Option (List CapabilitySpec)
  specs_from nil defaults = some []
  specs_from (cons value items) defaults = do
    spec ← spec_from_dict value defaults
    rest ← specs_from items defaults
    some (spec ∷ rest)

  -- `value` is what json.loads gives for the file.
  unfoldable pub all_capability_specs : Json → Option (List CapabilitySpec)
  all_capability_specs value = do
    payload ← fields_of value
    capabilities_raw ← items_of (member "capabilities" payload)
    defaults ← provider_defaults payload
    specs ← specs_from capabilities_raw defaults
    validate_unique_candidate_slots specs
