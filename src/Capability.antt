-- ===== src/Capability.antt =====
-- capability_resolver.py: the specs of the canonical capabilities, the check that no two of them share a
-- slot, and the capabilities that a set of observed slots resolves to.
pub mod Load
pub mod Specs
pub mod Lookup
pub mod Unique
pub mod Valid
pub mod Claimed
use hymer_connect_ha.Prelude.{
  ℕ, Bool, true, false, not, ◌&&◌, Option, none, some, List, [], ◌∷◌, ◌++◌, ◌==◌, if◌then◌else◌,
}
use hymer_connect_ha.Prelude.Int.{ℤ, pos, negsuc}
use hymer_connect_ha.Prelude.Text.{text_eq}

-- A component id and a sensor id.
abbrev pub Slot : Type 0
Slot = ℤ × ℤ

unfoldable pub int_eq : ℤ → ℤ → Bool
int_eq (pos m) (pos n) = m == n
int_eq (pos m) (negsuc n) = false
int_eq (negsuc m) (pos n) = false
int_eq (negsuc m) (negsuc n) = m == n

-- `a == b` of two slots
unfoldable pub slot_eq : Slot → Slot → Bool
slot_eq (c, s) (d, t) = int_eq c d && int_eq s t

-- `slot in slots`
unfoldable pub slot_in : Slot → List Slot → Bool
slot_in s [] = false
slot_in s (t ∷ slots) = let rest = slot_in s slots in if slot_eq t s then true else rest

pub data PlatformKey : Type 0 where
  sensor binary_sensor switch : PlatformKey

pub data WriteStyle : Type 0 where
  bool_style string_on_off : WriteStyle

pub record SlotCandidate : Type 0 where
  pub component_id : ℤ
  pub sensor_id : ℤ
  pub write_style : Option WriteStyle
  pub transform : Option (List ℕ)

unfoldable pub candidate_key : SlotCandidate → Slot
candidate_key candidate = (candidate.component_id, candidate.sensor_id)

pub record CapabilitySpec : Type 0 where
  pub key : List ℕ
  pub platform : PlatformKey
  pub candidates : List SlotCandidate
  pub unit : Option (List ℕ)
  pub icon : Option (List ℕ)
  pub sensor_device_class : Option (List ℕ)
  pub binary_device_class : Option (List ℕ)
  pub read_validation_status : List ℕ
  pub write_validation_status : List ℕ
  pub evidence_sources : List (List ℕ)

pub record ResolvedCapability : Type 0 where
  pub spec : CapabilitySpec
  pub candidate : SlotCandidate

-- An exception is none.
infixl 5 ◌>>=◌
abbrev pub ◌>>=◌ : {A B : Type 0} → Option A → (A → Option B) → Option B
some a >>= f = f a
none >>= f = none

-- The dict from slot to capability key: an entry in front replaces the one behind it.
abbrev pub Seen : Type 0
Seen = List (Slot × List ℕ)

-- `seen.get(slot)`
unfoldable pub seen_key : Slot → Seen → Option (List ℕ)
seen_key s [] = none
seen_key s ((t, k) ∷ seen) = if slot_eq t s then some k else seen_key s seen

-- `existing is not None and existing != spec.key`
unfoldable pub is_reused : Option (List ℕ) → List ℕ → Bool
is_reused none k = false
is_reused (some existing) k = not (text_eq existing k)

unfoldable pub check_candidates : List ℕ → List SlotCandidate → Seen → Option Seen
check_candidates k [] seen = some seen
check_candidates k (candidate ∷ candidates) seen =
    let rest = check_candidates k candidates ((candidate_key candidate, k) ∷ seen) in
    if is_reused (seen_key (candidate_key candidate) seen) k then none else rest

unfoldable pub check_specs : List CapabilitySpec → Seen → Option Seen
check_specs [] seen = some seen
check_specs (spec ∷ specs) seen = do
  now ← check_candidates spec.key spec.candidates seen
  check_specs specs now

unfoldable pub validate_unique_candidate_slots : List CapabilitySpec → Option (List CapabilitySpec)
validate_unique_candidate_slots specs = do _ ← check_specs specs []; some specs

-- `spec.platform == platform`
unfoldable pub platform_eq : PlatformKey → PlatformKey → Bool
platform_eq sensor sensor = true
platform_eq sensor binary_sensor = false
platform_eq sensor switch = false
platform_eq binary_sensor sensor = false
platform_eq binary_sensor binary_sensor = true
platform_eq binary_sensor switch = false
platform_eq switch sensor = false
platform_eq switch binary_sensor = false
platform_eq switch switch = true

unfoldable pub candidate_keys : List SlotCandidate → List Slot
candidate_keys [] = []
candidate_keys (candidate ∷ candidates) = candidate_key candidate ∷ candidate_keys candidates

-- The spec with a key; text_eq is `spec.key == key`.
unfoldable pub capability_spec : List CapabilitySpec → List ℕ → Option CapabilitySpec
capability_spec [] k = none
capability_spec (spec ∷ specs) k = if text_eq spec.key k then some spec else capability_spec specs k

unfoldable pub keys_of_spec : Option CapabilitySpec → List Slot
keys_of_spec none = []
keys_of_spec (some spec) = candidate_keys spec.candidates

unfoldable pub candidate_slots_for_key : List CapabilitySpec → List ℕ → List Slot
candidate_slots_for_key specs k = keys_of_spec (capability_spec specs k)

module _ (observed : List Slot) where
  unfoldable pub present_keys : List SlotCandidate → List Slot
  present_keys [] = []
  present_keys (candidate ∷ candidates) =
      let rest = present_keys candidates in
      if slot_in (candidate_key candidate) observed then candidate_key candidate ∷ rest else rest

  unfoldable pub present_candidate_slots : ResolvedCapability → List Slot
  present_candidate_slots capability = present_keys capability.spec.candidates

  -- The loop over the candidates of one spec, up to its break.
  unfoldable pub resolve_spec : CapabilitySpec → List SlotCandidate → List ResolvedCapability
  resolve_spec spec [] = []
  resolve_spec spec (candidate ∷ candidates) =
      let rest = resolve_spec spec candidates in
      if slot_in (candidate_key candidate) observed
      then record { spec = spec; candidate = candidate } ∷ []
      else rest

  unfoldable pub resolved_capabilities : List CapabilitySpec → PlatformKey → List ResolvedCapability
  resolved_capabilities [] platform = []
  resolved_capabilities (spec ∷ specs) platform =
      let rest = resolved_capabilities specs platform in
      if platform_eq spec.platform platform then resolve_spec spec spec.candidates ++ rest else rest

  unfoldable pub all_resolved_capabilities : List CapabilitySpec → List ResolvedCapability
  all_resolved_capabilities specs =
      resolved_capabilities specs sensor
      ++ (resolved_capabilities specs binary_sensor ++ resolved_capabilities specs switch)

  -- `claimed.update(…)` for each capability; a set is the list of what was added to it.
  unfoldable pub claim_all : List ResolvedCapability → List Slot → List Slot
  claim_all [] claimed = claimed
  claim_all (capability ∷ capabilities) claimed =
      claim_all capabilities (present_candidate_slots capability ++ claimed)

  unfoldable pub canonical_claimed_slots : List CapabilitySpec → List Slot
  canonical_claimed_slots specs = claim_all (all_resolved_capabilities specs) []
