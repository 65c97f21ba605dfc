-- ===== src/Tests/Capabilities.antt =====
-- A provider file with a main switch of two providers and a water level, on a vehicle that has the second
-- provider and a slot that no capability uses.
use hymer_connect_ha.Prelude.{ℕ, ◌≡◌, ◌⊎◌, ◌&&◌, refl, Option, none, some, List, [], ◌∷◌}
use hymer_connect_ha.Prelude.Int.{ℤ, pos}
use mathlib.Core.Logic.{◌↔◌}
use hymer_connect_ha.Prelude.Text.{codes, text_eq}
use hymer_connect_ha.SignalR.Json.{
  Json, null, bool, num, other_number, str, arr, obj, nil, cons, end, field, member,
}
use hymer_connect_ha.Capability.{
  int_eq, slot_eq, slot_in, sensor, switch, bool_style, SlotCandidate, candidate_key,
  CapabilitySpec, seen_key, is_reused, check_candidates, check_specs,
  validate_unique_candidate_slots, canonical_claimed_slots, all_resolved_capabilities,
  resolved_capabilities, resolve_spec, platform_eq, claim_all, present_candidate_slots,
  present_keys,
}
use hymer_connect_ha.Capability.Load.{
  text_of, required, require_string, given_text, optional, optional_string, texts_of, tuple_of,
  string_tuple, or_default, or_defaults, fields_or_none, defaults_from, provider_defaults,
  write_style_of, platform_of, filled_list,
}
use hymer_connect_ha.Capability.Specs.{
  fields_of, items_of, candidate_from_dict, candidates_from, spec_from_dict, specs_from,
  all_capability_specs,
}
use hymer_connect_ha.Capability.Unique
use hymer_connect_ha.Capability.Valid
use hymer_connect_ha.Capability.Claimed

abbrev int_of : Json → Option ℤ
int_of (num n) = some (pos n)
int_of null = none
int_of (bool b) = none
int_of other_number = none
int_of (str s) = none
int_of (arr items) = none
int_of (obj fields) = none

abbrev candidate_json : ℕ → ℕ → Json
candidate_json component_id sensor_id = obj (
    field "component_id" (num component_id)
      (field "sensor_id" (num sensor_id) (field "write_style" (str (codes "bool")) end)))

abbrev provider_file : Json
provider_file = obj (
    field "capabilities"
      (arr (
        cons
          (obj (
            field "key" (str (codes "main_switch")) (
              field "platform" (str (codes "switch")) (
                field "candidates" (arr (cons (candidate_json 3 1) (cons (candidate_json 8 2) nil)))
                  end))))
          (cons
            (obj (
              field "key" (str (codes "fresh_water")) (
                field "platform" (str (codes "sensor")) (
                  field "candidates" (arr (cons (candidate_json 4 5) nil))
                    (field "unit" (str (codes "%")) end)))))
            nil)))
      end)

abbrev candidate_at : ℕ → ℕ → SlotCandidate
candidate_at component_id sensor_id = record {
  component_id = pos component_id;
  sensor_id = pos sensor_id;
  write_style = some bool_style;
  transform = none;
}

abbrev main_switch : CapabilitySpec
main_switch = record {
  key = codes "main_switch";
  platform = switch;
  candidates = candidate_at 3 1 ∷ candidate_at 8 2 ∷ [];
  unit = none;
  icon = none;
  sensor_device_class = none;
  binary_device_class = none;
  read_validation_status = codes "inferred";
  write_validation_status = codes "not_applicable";
  evidence_sources = [];
}

abbrev fresh_water : CapabilitySpec
fresh_water = record {
  key = codes "fresh_water";
  platform = sensor;
  candidates = candidate_at 4 5 ∷ [];
  unit = some (codes "%");
  icon = none;
  sensor_device_class = none;
  binary_device_class = none;
  read_validation_status = codes "inferred";
  write_validation_status = codes "not_applicable";
  evidence_sources = [];
}

abbrev two_specs : List CapabilitySpec
two_specs = main_switch ∷ fresh_water ∷ []

all_capability_specs_example : all_capability_specs int_of provider_file ≡ some two_specs
unfolding all_capability_specs fields_of items_of member provider_defaults fields_or_none
    defaults_from optional_string optional given_text text_of string_tuple tuple_of texts_of
    or_default or_defaults specs_from spec_from_dict require_string required platform_of text_eq
    filled_list candidates_from candidate_from_dict write_style_of validate_unique_candidate_slots
    check_specs check_candidates is_reused seen_key slot_eq int_eq candidate_key
all_capability_specs_example = refl

-- A second capability with a slot of the main switch is refused.
reused_slot :
    validate_unique_candidate_slots
      (main_switch ∷ record fresh_water { candidates = candidate_at 8 2 ∷ [] } ∷ [])
    ≡ none
unfolding validate_unique_candidate_slots check_specs check_candidates is_reused seen_key slot_eq
    int_eq candidate_key text_eq
reused_slot = refl

claimed_example :
    canonical_claimed_slots ((pos 8, pos 2) ∷ (pos 9, pos 9) ∷ []) two_specs ≡ (pos 8, pos 2) ∷ []
unfolding canonical_claimed_slots all_resolved_capabilities resolved_capabilities platform_eq
    resolve_spec slot_in slot_eq int_eq candidate_key claim_all present_candidate_slots present_keys
claimed_example = refl

all_capability_specs-IsValid_example : Valid.IsValid int_of two_specs
all_capability_specs-IsValid_example =
    Valid.all_capability_specs-IsValid int_of provider_file two_specs all_capability_specs_example

validate_unique_candidate_slots-HasUniqueSlots_example :
    ((validate_unique_candidate_slots two_specs ≡ some two_specs) ↔ Unique.HasUniqueSlots two_specs)
    × ((validate_unique_candidate_slots two_specs ≡ none)
        ⊎ (validate_unique_candidate_slots two_specs ≡ some two_specs))
validate_unique_candidate_slots-HasUniqueSlots_example =
    Unique.validate_unique_candidate_slots-HasUniqueSlots two_specs

canonical_claimed_slots_lem_example :
    slot_in
      (pos 8, pos 2)
      (canonical_claimed_slots ((pos 8, pos 2) ∷ (pos 9, pos 9) ∷ []) two_specs)
    ≡ (Claimed.is_candidate (pos 8, pos 2) two_specs
        && slot_in (pos 8, pos 2) ((pos 8, pos 2) ∷ (pos 9, pos 9) ∷ []))
canonical_claimed_slots_lem_example =
    Claimed.canonical_claimed_slots_lem ((pos 8, pos 2) ∷ (pos 9, pos 9) ∷ []) two_specs
      (pos 8, pos 2)
