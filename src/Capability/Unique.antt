-- ===== src/Capability/Unique.antt =====
-- The check of capability_resolver.py that no two capabilities share a slot.
use mathlib.Core.Logic.{◌↔◌}
use hymer_connect_ha.Prelude.{
  ℕ, none, some, List, [], ◌∷◌, ◌≡◌, refl, sym, ◌∙◌, ◌⊎◌, inl, inr, arith, Bool-cases, Option-cases,
}
use hymer_connect_ha.Capability.Lookup.{
  some_injective, seen_key_same, seen_key_inv, not_reused, seen_key_kept,
}
use hymer_connect_ha.Capability.{
  Slot, SlotCandidate, candidate_key, CapabilitySpec, Seen, seen_key, is_reused, check_candidates,
  check_specs, validate_unique_candidate_slots,
}

-- Some candidate has the slot.
abbrev pub Offers : Slot → List SlotCandidate → Type 0
Offers slot [] = ⊥
Offers slot (candidate ∷ candidates) = (candidate_key candidate ≡ slot) ⊎ Offers slot candidates

-- Some capability with the key has a candidate with the slot.
abbrev pub Provides : Slot → List ℕ → List CapabilitySpec → Type 0
Provides slot k [] = ⊥
Provides slot k (spec ∷ specs) =
    (Offers slot spec.candidates × (spec.key ≡ k)) ⊎ Provides slot k specs

-- Two capabilities that have a slot in common have the same key.
pub HasUniqueSlots : List CapabilitySpec → Type 0
HasUniqueSlots specs =
    (slot : Slot) (k j : List ℕ) → Provides slot k specs → Provides slot j specs → k ≡ j

-- A check that passes leaves an entry for each candidate, and all that were there.
check_candidates-Has :
    (k : List ℕ) (candidates : List SlotCandidate) (seen now : Seen)
    → check_candidates k candidates seen ≡ some now
    → ((s : Slot) → Offers s candidates → seen_key s now ≡ some k)
      × ((s : Slot) (j : List ℕ) → seen_key s seen ≡ some j → seen_key s now ≡ some j)
unfolding check_candidates
check_candidates-Has k [] seen now h = ((λ s o. absurd o), (λ s j e. cc (some_injective h, e)))
check_candidates-Has k (candidate ∷ candidates) seen now h =
    let next = check_candidates-Has k candidates ((candidate_key candidate, k) ∷ seen) now in
    elim (Bool-cases (is_reused (seen_key (candidate_key candidate) seen) k)) [
      | inl e ↦ ground (arith, e, h)
      | inr e ↦
          let (offered, kept) = next (cc (e, h)) in
          (
            (λ s o. elim o [
              | inl here ↦ kept s k (cc (here, seen_key_same (candidate_key candidate) k seen))
              | inr there ↦ offered s there
            ]),
            (λ s j found. kept s j (seen_key_kept (candidate_key candidate) s k j seen e found)),
          )
    ]

check_specs-Has :
    (specs : List CapabilitySpec) (seen now : Seen)
    → check_specs specs seen ≡ some now
    → ((s : Slot) (k : List ℕ) → Provides s k specs → seen_key s now ≡ some k)
      × ((s : Slot) (j : List ℕ) → seen_key s seen ≡ some j → seen_key s now ≡ some j)
unfolding check_specs
check_specs-Has [] seen now h = ((λ s k o. absurd o), (λ s j e. cc (some_injective h, e)))
check_specs-Has (spec ∷ specs) seen now h =
    let next = check_specs-Has specs in
    elim (Option-cases (check_candidates spec.key spec.candidates seen)) [
      | inl e ↦ ground (arith, e, h)
      | inr (mid, e) ↦
          let (offered, kept) = check_candidates-Has spec.key spec.candidates seen mid e in
          let (provided, kept') = next mid now (cc (e, h)) in
          (
            (λ s k o. elim o [
              | inl (here, same) ↦ cc (kept' s spec.key (offered s here), same)
              | inr there ↦ provided s k there
            ]),
            (λ s j found. kept' s j (kept s j found)),
          )
    ]

-- The entries of a dict that is left are the ones that were there and those of the candidates.
Entries : List ℕ → List SlotCandidate → (seen now : Seen) → Type 0
Entries k candidates seen now =
    (s : Slot) (j : List ℕ)
    → seen_key s now ≡ some j
    → (seen_key s seen ≡ some j) ⊎ (Offers s candidates × (k ≡ j))

-- Where no candidate has a slot that is there under another key, the check passes.
check_candidates-Passes :
    (k : List ℕ) (candidates : List SlotCandidate) (seen : Seen)
    → ((s : Slot) (j : List ℕ) → Offers s candidates → seen_key s seen ≡ some j → j ≡ k)
    → (now : Seen) × (check_candidates k candidates seen ≡ some now) × Entries k candidates seen now
unfolding check_candidates Entries
check_candidates-Passes k [] seen free = (seen, refl, λ s j e. inl e)
check_candidates-Passes k (candidate ∷ candidates) seen free =
    let t = candidate_key candidate in
    let (now, passed, entries) =
      check_candidates-Passes k candidates ((t, k) ∷ seen) (λ s j o found.
        elim (seen_key_inv t s k j seen found) [
          | inl (_, same) ↦ sym same
          | inr old ↦ free s j (inr o) old
        ]) in
    (
      now,
      cc (not_reused (seen_key t seen) k (λ j e. free t j (inl refl) e), passed),
      (λ s j found. elim (entries s j found) [
        | inl e ↦ elim (seen_key_inv t s k j seen e) [
          | inl (here, same) ↦ inr (inl here, same)
          | inr old ↦ inl old
        ]
        | inr (o, same) ↦ inr (inr o, same)
      ]),
    )

check_specs-Passes :
    (specs : List CapabilitySpec) (seen : Seen)
    → ((s : Slot) (k j : List ℕ) → Provides s k specs → seen_key s seen ≡ some j → j ≡ k)
    → HasUniqueSlots specs
    → (now : Seen) × (check_specs specs seen ≡ some now)
unfolding check_specs Entries HasUniqueSlots
check_specs-Passes [] seen free unique = (seen, refl)
check_specs-Passes (spec ∷ specs) seen free unique =
    let next = check_specs-Passes specs in
    let (mid, passed, entries) =
      check_candidates-Passes spec.key spec.candidates seen
        (λ s j o found. free s spec.key j (inl (o, refl)) found) in
    let (now, rest) =
      next mid
        (λ s k j p found. elim (entries s j found) [
          | inl old ↦ free s k j (inr p) old
          | inr (o, same) ↦ sym same ∙ unique s spec.key k (inl (o, refl)) (inr p)
        ])
        (λ s k j p q. unique s k j (inr p) (inr q)) in
    (now, cc (passed, rest))

pub unique_of_passed :
    (specs : List CapabilitySpec)
    → validate_unique_candidate_slots specs ≡ some specs
    → HasUniqueSlots specs
unfolding validate_unique_candidate_slots HasUniqueSlots
unique_of_passed specs h slot k j p q = elim (Option-cases (check_specs specs [])) [
  | inl e ↦ ground (arith, e, h)
  | inr (now, e) ↦
      let (has, _) = check_specs-Has specs [] now e in
      some_injective (sym (has slot k p) ∙ has slot j q)
]

passed_of_unique :
    (specs : List CapabilitySpec)
    → HasUniqueSlots specs
    → validate_unique_candidate_slots specs ≡ some specs
unfolding validate_unique_candidate_slots seen_key
passed_of_unique specs unique =
    let (now, passed) =
      check_specs-Passes specs [] (λ s k j p found. ground (arith, found)) unique in
    cc passed

passes_or_raises :
    (specs : List CapabilitySpec)
    → (validate_unique_candidate_slots specs ≡ none)
      ⊎ (validate_unique_candidate_slots specs ≡ some specs)
unfolding validate_unique_candidate_slots
passes_or_raises specs = elim (Option-cases (check_specs specs [])) [
  | inl e ↦ inl (cc e)
  | inr (now, e) ↦ inr (cc e)
]

-- The validation lets the specs through, unchanged, exactly if no two capabilities with different
-- keys have a slot in common; and where it does not, it raises.
pub validate_unique_candidate_slots-HasUniqueSlots :
    (specs : List CapabilitySpec)
    → ((validate_unique_candidate_slots specs ≡ some specs) ↔ HasUniqueSlots specs)
      × ((validate_unique_candidate_slots specs ≡ none)
          ⊎ (validate_unique_candidate_slots specs ≡ some specs))
validate_unique_candidate_slots-HasUniqueSlots specs =
    ((unique_of_passed specs, passed_of_unique specs), passes_or_raises specs)
