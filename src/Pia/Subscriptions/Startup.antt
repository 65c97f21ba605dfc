-- ===== src/Pia/Subscriptions/Startup.antt =====
-- The startup requests are built, and each shows the id that was drawn for it.
use hymer_connect_ha.Prelude.{◌+◌, ℕ, ◌≤◌, ◌≡◌, refl, Option, some, List, [], ◌∷◌, map}
use hymer_connect_ha.Prelude.Int.{pos}
use hymer_connect_ha.Prelude.Result.{ok}
use hymer_connect_ha.Prelude.Utf8.{encode_utf8}
use hymer_connect_ha.Pia.Wire.{Floats, encode_str_field}
use hymer_connect_ha.Pia.Envelopes.{extract_request_id_from_payload}
use hymer_connect_ha.Pia.Requests.{build_subscription_entry, build_subscription_request}
use hymer_connect_ha.Pia.Requests.Ids.{DecodesAgain, envelope_id}
use hymer_connect_ha.Pia.Subscriptions.{
  group_entries, catalog_entries, subscription_groups, sensors_from,
  build_subscription_catalog_payload, subscription_topics, requests_from,
  build_subscription_requests,
}

-- The names of the groups can be encoded.
catalog_built : (catalog : List ℕ) × (build_subscription_catalog_payload ≡ ok catalog)
unfolding build_subscription_catalog_payload catalog_entries group_entries subscription_groups
    sensors_from build_subscription_entry encode_str_field encode_utf8
catalog_built = (_, refl)

module _ (floats : Floats) (b64encode : List ℕ → List ℕ)
    (b64decode : List ℕ → Option (List ℕ)) where
  -- The request ids that are found in requests.
  abbrev found_ids : List (List ℕ) → List (Option ℕ)
  found_ids requests = map (extract_request_id_from_payload floats b64decode) requests

  module _ (id time : ℕ → ℕ) (again : DecodesAgain floats b64encode b64decode)
      (positive : (n : ℕ) → 1 ≤ id n) where
    -- The ids that are drawn from the `n`-th request on.
    abbrev drawn_from : ℕ → List (ℕ × List ℕ) → List (Option ℕ)
    drawn_from n [] = []
    drawn_from n (t ∷ topics) = some (id n) ∷ drawn_from (n + 1) topics

    requests_from-ids :
        (n : ℕ) (topics : List (ℕ × List ℕ))
        → found_ids (requests_from b64encode (λ n. pos (id n)) (λ n. pos (time n)) n topics)
          ≡ drawn_from n topics
    unfolding requests_from build_subscription_request
    requests_from-ids n [] = refl
    requests_from-ids n ((number, payload) ∷ topics) = rw (
      envelope_id floats b64encode b64decode (id n) (time n) number payload again (positive n),
      requests_from-ids (n + 1) topics,
    )

  -- For every choice of float operations, a base64 that decodes what it encodes, and drawn ids of
  -- at least 1: the seven startup requests are built, nothing raises, and the ids that are found in
  -- them are those that were drawn, in order.
  pub startup_ids :
      (id time : ℕ → ℕ)
      → DecodesAgain floats b64encode b64decode
      → ((n : ℕ) → 1 ≤ id n)
      → (requests : List (List ℕ)) × (build_subscription_requests b64encode
            (λ n. pos (id n))
            (λ n. pos (time n))
          ≡ ok requests)
        × (map (extract_request_id_from_payload floats b64decode) requests
            ≡ map (λ n. some (id n)) (0 ∷ 1 ∷ 2 ∷ 3 ∷ 4 ∷ 5 ∷ 6 ∷ []))
  unfolding build_subscription_requests subscription_topics
  startup_ids id time again positive =
      let (catalog, built) = catalog_built in
      (
        requests_from b64encode (λ n. pos (id n)) (λ n. pos (time n)) 0
            (subscription_topics catalog),
        rw built,
        requests_from-ids id time again positive 0 (subscription_topics catalog),
      )
