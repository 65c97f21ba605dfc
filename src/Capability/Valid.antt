-- ===== src/Capability/Valid.antt =====
-- What holds of the specs that provider_specs.json is read as, capability_resolver.py.
use hymer_connect_ha.Prelude.{
  inr, inl, Option, none, some, List, [], ◌∷◌, ◌≡◌, ◌≢◌, refl, arith, All, Option-cases,
}
use mathlib.Core.Path.{subst}
use hymer_connect_ha.Prelude.Int.{ℤ}
use hymer_connect_ha.SignalR.Json.{
  Json, null, bool, num, other_number, str, arr, obj, Items, nil, cons, member,
}
use hymer_connect_ha.Capability.{
  ◌>>=◌, CapabilitySpec, check_specs, validate_unique_candidate_slots,
}
use hymer_connect_ha.Capability.Load.{
  Defaults, text_of, required, require_string, filled_list, provider_defaults, platform_of,
  optional_string, string_tuple,
}
use hymer_connect_ha.Capability.Specs.{
  fields_of, items_of, candidate_from_dict, candidates_from, spec_from_dict, specs_from,
  all_capability_specs,
}
use hymer_connect_ha.Capability.Unique.{HasUniqueSlots, unique_of_passed}
use hymer_connect_ha.Capability.Lookup.{some_injective}

-- What is read, if anything is, has the property.
abbrev Yields : {A : Type 0} → (A → Type 0) → Option A → Type 0
Yields {A} P o = (a : A) → o ≡ some a → P a

Yields-bind :
    {A B : Type 0} (P : B → Type 0) (o : Option A) {f : A → Option B}
    → ((a : A) → o ≡ some a → Yields P (f a))
    → Yields P (o >>= f)
Yields-bind P none next b h = ground (arith, h)
Yields-bind P (some a) next b h = next a refl b h

-- A step whose value does not matter.
Yields-then :
    {A B : Type 0} (P : B → Type 0) (o : Option A) {f : A → Option B}
    → ((a : A) → Yields P (f a))
    → Yields P (o >>= f)
Yields-then P o next = Yields-bind P o (λ a e. next a)

Yields-some : {A : Type 0} (P : A → Type 0) {a : A} → P a → Yields P (some a)
Yields-some P p b h = subst P (some_injective h) p

abbrev IsFilled : {A : Type 0} → List A → Type 0
IsFilled xs = xs ≢ []

text_of-IsFilled : (value : Json) → Yields IsFilled (text_of value)
unfolding text_of
text_of-IsFilled (str []) a h = ground (arith, h)
text_of-IsFilled (str (c ∷ chars)) a h = λ e. ground (arith, some_injective h, e)
text_of-IsFilled null a h = ground (arith, h)
text_of-IsFilled (bool b) a h = ground (arith, h)
text_of-IsFilled (num n) a h = ground (arith, h)
text_of-IsFilled other_number a h = ground (arith, h)
text_of-IsFilled (arr items) a h = ground (arith, h)
text_of-IsFilled (obj fields) a h = ground (arith, h)

required-IsFilled : (value : Option Json) → Yields IsFilled (required value)
unfolding required
required-IsFilled none a h = ground (arith, h)
required-IsFilled (some value) a h = text_of-IsFilled value a h

module _ (as_int : Json → Option ℤ) where
  -- Reading the candidates of a list that is not empty gives some.
  candidates_from-IsFilled :
      (value : Json) (items : Items) → Yields IsFilled (candidates_from as_int (cons value items))
  unfolding candidates_from
  candidates_from-IsFilled value items =
      Yields-then IsFilled (candidate_from_dict as_int value) (λ candidate.
        Yields-then IsFilled (candidates_from as_int items)
          (λ rest. Yields-some IsFilled (λ e. ground (arith, e))))

  filled_list-IsFilled :
      (value : Option Json) (items : Items)
      → filled_list value ≡ some items
      → Yields IsFilled (candidates_from as_int items)
  unfolding filled_list
  filled_list-IsFilled (some (arr (cons value items))) read h =
      subst (λ r. Yields IsFilled (candidates_from as_int r)) (some_injective h)
        (candidates_from-IsFilled value items)
  filled_list-IsFilled (some (arr nil)) read h = ground (arith, h)
  filled_list-IsFilled none read h = ground (arith, h)
  filled_list-IsFilled (some null) read h = ground (arith, h)
  filled_list-IsFilled (some (bool b)) read h = ground (arith, h)
  filled_list-IsFilled (some (num n)) read h = ground (arith, h)
  filled_list-IsFilled (some other_number) read h = ground (arith, h)
  filled_list-IsFilled (some (str s)) read h = ground (arith, h)
  filled_list-IsFilled (some (obj fields)) read h = ground (arith, h)

  -- A capability has a key and a candidate.
  abbrev pub IsUsable : CapabilitySpec → Type 0
  IsUsable spec = IsFilled spec.key × IsFilled spec.candidates

  spec_from_dict-IsUsable :
      (value : Json) (defaults : Defaults) → Yields IsUsable (spec_from_dict as_int value defaults)
  unfolding spec_from_dict require_string
  spec_from_dict-IsUsable value defaults = Yields-then IsUsable (fields_of value) (λ payload.
      Yields-bind IsUsable (require_string payload "key") (λ key key_read.
        Yields-then IsUsable (require_string payload "platform") (λ platform_text.
          Yields-then IsUsable (platform_of platform_text) (λ platform.
            Yields-bind IsUsable (filled_list (member "candidates" payload)) (λ raw raw_read.
              Yields-bind IsUsable (candidates_from as_int raw) (λ candidates candidates_read.
                Yields-then IsUsable (optional_string payload "unit") (λ unit.
                  Yields-then IsUsable (optional_string payload "icon") (λ icon.
                    Yields-then IsUsable (optional_string payload "sensor_device_class")
                      (λ sensor_class.
                        Yields-then IsUsable (optional_string payload "binary_device_class")
                          (λ binary_class.
                            Yields-then IsUsable (optional_string payload "read_validation_status")
                              (λ read.
                                Yields-then IsUsable
                                  (optional_string payload "write_validation_status")
                                  (λ write.
                                    Yields-then IsUsable (string_tuple payload "evidence_sources")
                                      (λ sources. Yields-some IsUsable (
                                        required-IsFilled (member "key" payload) key key_read,
                                        filled_list-IsFilled (member "candidates" payload) raw
                                            raw_read candidates candidates_read,
                                      ))))))))))))))

  specs_from-All :
      (items : Items) (defaults : Defaults)
      → Yields (All IsUsable) (specs_from as_int items defaults)
  unfolding specs_from
  specs_from-All nil defaults = Yields-some (All IsUsable) tt
  specs_from-All (cons value items) defaults =
      Yields-bind (All IsUsable) (spec_from_dict as_int value defaults) (λ spec spec_read.
        Yields-bind (All IsUsable) (specs_from as_int items defaults) (λ rest rest_read.
          Yields-some (All IsUsable) (
            spec_from_dict-IsUsable value defaults spec spec_read,
            specs_from-All items defaults rest rest_read,
          )))

  -- The validation returns what it is given.
  validated_same :
      (specs read : List CapabilitySpec)
      → validate_unique_candidate_slots specs ≡ some read
      → specs ≡ read
  unfolding validate_unique_candidate_slots
  validated_same specs read h = elim (Option-cases (check_specs specs [])) [
    | inl e ↦ ground (arith, e, h)
    | inr (now, e) ↦ some_injective (cc (e, h))
  ]

  abbrev pub IsValid : List CapabilitySpec → Type 0
  IsValid specs = All IsUsable specs × HasUniqueSlots specs

  validated-IsValid :
      (specs : List CapabilitySpec)
      → All IsUsable specs
      → Yields IsValid (validate_unique_candidate_slots specs)
  validated-IsValid specs usable read h =
      subst IsValid (validated_same specs read h)
        (usable, unique_of_passed specs (cc (h, validated_same specs read h)))

  -- Whatever int() does: where the provider file is read without an exception, every capability has
  -- a key and a candidate, and no two capabilities with different keys have a slot in common.
  pub all_capability_specs-IsValid :
      (value : Json) (specs : List CapabilitySpec)
      → all_capability_specs as_int value ≡ some specs
      → IsValid specs
  unfolding all_capability_specs
  all_capability_specs-IsValid value = Yields-then IsValid (fields_of value) (λ payload.
      Yields-then IsValid (items_of (member "capabilities" payload)) (λ items.
        Yields-then IsValid (provider_defaults payload) (λ defaults.
          Yields-bind IsValid (specs_from as_int items defaults) (λ specs specs_read.
            validated-IsValid specs (specs_from-All items defaults specs specs_read)))))
