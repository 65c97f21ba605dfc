-- ===== src/Capability/Claimed.antt =====
-- The observed slots that the capabilities claim, capability_resolver.py.
use hymer_connect_ha.Prelude.{
  Bool, true, false, ◌&&◌, ◌||◌, List, [], ◌∷◌, ◌++◌, ◌≡◌, refl, ap, inl, inr, arith, Bool-cases,
}
use hymer_connect_ha.Capability.{
  Slot, slot_eq, slot_in, PlatformKey, sensor, binary_sensor, switch, SlotCandidate, candidate_key,
  CapabilitySpec, ResolvedCapability, platform_eq, candidate_keys, present_keys,
  present_candidate_slots, resolve_spec, resolved_capabilities, all_resolved_capabilities,
  claim_all, canonical_claimed_slots,
}
use hymer_connect_ha.Capability.Lookup.{slot_eq→eq}

-- Whether a capability has a candidate with the slot.
unfoldable pub is_candidate : Slot → List CapabilitySpec → Bool
is_candidate s [] = false
is_candidate s (spec ∷ specs) = slot_in s (candidate_keys spec.candidates) || is_candidate s specs

-- Whether one for the platform has.
unfoldable is_candidate_for : Slot → PlatformKey → List CapabilitySpec → Bool
is_candidate_for s p [] = false
is_candidate_for s p (spec ∷ specs) =
    platform_eq spec.platform p && slot_in s (candidate_keys spec.candidates)
    || is_candidate_for s p specs

slot_in-append :
    (s : Slot) (xs ys : List Slot) → slot_in s (xs ++ ys) ≡ (slot_in s xs || slot_in s ys)
unfolding slot_in
slot_in-append s [] ys = refl
slot_in-append s (x ∷ xs) ys = ground (arith, slot_in-append s xs ys)

module _ (observed : List Slot) (s : Slot) where
  -- The slots that a list of capabilities claims, as `claim_all` adds them.
  unfoldable claims : List ResolvedCapability → Bool
  claims [] = false
  claims (capability ∷ capabilities) =
      slot_in s (present_candidate_slots observed capability) || claims capabilities

  slot_in-claim_all :
      (capabilities : List ResolvedCapability) (claimed : List Slot)
      → slot_in s (claim_all observed capabilities claimed)
        ≡ (claims capabilities || slot_in s claimed)
  unfolding claim_all claims
  slot_in-claim_all [] claimed = refl
  slot_in-claim_all (capability ∷ capabilities) claimed =
      let now = present_candidate_slots observed capability in
      ground (arith, slot_in-claim_all capabilities (now ++ claimed), slot_in-append s now claimed)

  claims-append : (xs ys : List ResolvedCapability) → claims (xs ++ ys) ≡ (claims xs || claims ys)
  unfolding claims
  claims-append [] ys = refl
  claims-append (x ∷ xs) ys = ground (arith, claims-append xs ys)

  -- The candidates that are present.
  slot_in-present_keys :
      (candidates : List SlotCandidate)
      → slot_in s (present_keys observed candidates)
        ≡ (slot_in s (candidate_keys candidates) && slot_in s observed)
  unfolding present_keys candidate_keys slot_in
  slot_in-present_keys [] = refl
  slot_in-present_keys (candidate ∷ candidates) =
      let next = slot_in-present_keys candidates in
      elim (Bool-cases (slot_eq (candidate_key candidate) s)) [
        | inl e ↦
            let same = ap (λ t. slot_in t observed) (slot_eq→eq (candidate_key candidate) s e) in
            ground (arith, e, same, next)
        | inr e ↦ ground (arith, e, next)
      ]

  -- Whether a candidate is observed.
  unfoldable is_present : List SlotCandidate → Bool
  is_present [] = false
  is_present (candidate ∷ candidates) =
      slot_in (candidate_key candidate) observed || is_present candidates

  claims-resolve_spec :
      (spec : CapabilitySpec) (candidates : List SlotCandidate)
      → claims (resolve_spec observed spec candidates)
        ≡ (is_present candidates && slot_in s (present_keys observed spec.candidates))
  unfolding claims resolve_spec is_present present_candidate_slots
  claims-resolve_spec spec [] = refl
  claims-resolve_spec spec (candidate ∷ candidates) =
      ground (arith, claims-resolve_spec spec candidates)

  present_keys-none :
      (candidates : List SlotCandidate)
      → is_present candidates ≡ false
      → present_keys observed candidates ≡ []
  unfolding is_present present_keys
  present_keys-none [] h = refl
  present_keys-none (candidate ∷ candidates) h = ground (arith, h, present_keys-none candidates)

  -- A spec of which a candidate is observed claims all that are; any other has none to claim.
  claims-spec :
      (spec : CapabilitySpec)
      → claims (resolve_spec observed spec spec.candidates)
        ≡ (slot_in s (candidate_keys spec.candidates) && slot_in s observed)
  unfolding slot_in
  claims-spec spec = elim (Bool-cases (is_present spec.candidates)) [
    | inl e ↦ cc (e, claims-resolve_spec spec spec.candidates, slot_in-present_keys spec.candidates)
    | inr e ↦ cc (
      e,
      claims-resolve_spec spec spec.candidates,
      slot_in-present_keys spec.candidates,
      present_keys-none spec.candidates e,
    )
  ]

  claims-resolved_capabilities :
      (specs : List CapabilitySpec) (p : PlatformKey)
      → claims (resolved_capabilities observed specs p)
        ≡ (is_candidate_for s p specs && slot_in s observed)
  unfolding resolved_capabilities is_candidate_for claims
  claims-resolved_capabilities [] p = refl
  claims-resolved_capabilities (spec ∷ specs) p =
      let found = resolve_spec observed spec spec.candidates in
      let rest = resolved_capabilities observed specs p in
      ground
        (arith, claims-spec spec, claims-resolved_capabilities specs p, claims-append found rest)

-- Every capability is for one of the platforms.
some_platform :
    (p : PlatformKey)
    → (platform_eq p sensor || (platform_eq p binary_sensor || platform_eq p switch)) ≡ true
unfolding platform_eq
some_platform sensor = refl
some_platform binary_sensor = refl
some_platform switch = refl

is_candidate-platforms :
    (s : Slot) (specs : List CapabilitySpec)
    → is_candidate s specs ≡ (
        is_candidate_for s sensor specs
        || (is_candidate_for s binary_sensor specs || is_candidate_for s switch specs))
unfolding is_candidate is_candidate_for
is_candidate-platforms s [] = refl
is_candidate-platforms s (spec ∷ specs) =
    ground (arith, is_candidate-platforms s specs, some_platform spec.platform)

-- A slot is claimed exactly if it is observed and is a candidate of some capability, whichever
-- provider each capability is resolved to.
pub canonical_claimed_slots_lem :
    (observed : List Slot) (specs : List CapabilitySpec) (s : Slot)
    → slot_in s (canonical_claimed_slots observed specs)
      ≡ (is_candidate s specs && slot_in s observed)
unfolding canonical_claimed_slots all_resolved_capabilities slot_in
canonical_claimed_slots_lem observed specs s =
    let r = resolved_capabilities observed specs in
    let each = claims-resolved_capabilities observed s specs in
    ground (
      arith,
      slot_in-claim_all observed s (r sensor ++ (r binary_sensor ++ r switch)) [],
      claims-append observed s (r sensor) (r binary_sensor ++ r switch),
      claims-append observed s (r binary_sensor) (r switch),
      each sensor,
      each binary_sensor,
      each switch,
      is_candidate-platforms s specs,
    )
