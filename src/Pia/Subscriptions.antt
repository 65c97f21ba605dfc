-- ===== src/Pia/Subscriptions.antt =====
-- The startup subscriptions, build_subscription_requests of pia_decoder.py, with the catalog of the
-- sensor groups. The seven requests draw an id and read the clock each, in order.
pub mod Startup
use hymer_connect_ha.Prelude.{ℕ, zero, suc, ◌+◌, ◌-◌, Option, none, some, List, [], ◌∷◌, ◌++◌}
use hymer_connect_ha.Prelude.Int.{ℤ, pos}
use hymer_connect_ha.Prelude.Result.{Result, ok, ◌>>=◌}
use hymer_connect_ha.Pia.Wire.{encode_varint_field, encode_bytes_field}
use hymer_connect_ha.Pia.Requests.{build_subscription_entry, build_subscription_request}

-- `range(first, first + count)`
unfoldable pub sensors_from : ℕ → ℕ → List ℕ
sensors_from first zero = []
sensors_from first (suc count) = first ∷ sensors_from (first + 1) count

-- "can0", "can2", "lin1" and "lin2"
abbrev pub can0 : List ℕ
can0 = 0x63 ∷ 0x61 ∷ 0x6e ∷ 0x30 ∷ []

abbrev pub can2 : List ℕ
can2 = 0x63 ∷ 0x61 ∷ 0x6e ∷ 0x32 ∷ []

abbrev pub lin1 : List ℕ
lin1 = 0x6c ∷ 0x69 ∷ 0x6e ∷ 0x31 ∷ []

abbrev pub lin2 : List ℕ
lin2 = 0x6c ∷ 0x69 ∷ 0x6e ∷ 0x32 ∷ []

-- A bus id, its name and its sensor ids.
abbrev pub Group : Type 0
Group = ℕ × Option (List ℕ) × List ℕ

unfoldable pub subscription_groups : List Group
unfolding sensors_from
subscription_groups =
    (1, some can0, sensors_from 1 23)
    ∷ (3, some lin1, sensors_from 1 22)
    ∷ (8, some lin2, sensors_from 1 7)
    ∷ (11, none, 1 ∷ 2 ∷ [])
    ∷ (12, none, 1 ∷ 2 ∷ 3 ∷ [])
    ∷ (15, none, 1 ∷ 2 ∷ 3 ∷ [])
    ∷ (16, none, 1 ∷ 2 ∷ [])
    ∷ (19, none, 1 ∷ 2 ∷ [])
    ∷ (21, none, 1 ∷ 2 ∷ [])
    ∷ (22, none, 1 ∷ 2 ∷ [])
    ∷ (24, none, 1 ∷ 2 ∷ 3 ∷ [])
    ∷ (25, none, 1 ∷ 2 ∷ [])
    ∷ (27, none, 1 ∷ 2 ∷ 3 ∷ [])
    ∷ (30, none, sensors_from 1 14)
    ∷ (34, some lin1, sensors_from 1 7)
    ∷ (37, none, 1 ∷ 2 ∷ [])
    ∷ (43, none, 1 ∷ 2 ∷ [])
    ∷ (44, none, 1 ∷ 2 ∷ [])
    ∷ (45, some lin1, 8 ∷ 9 ∷ 10 ∷ 11 ∷ [])
    ∷ (49, some lin1, 8 ∷ 10 ∷ 11 ∷ [])
    ∷ (58, some lin1, sensors_from 4 11)
    ∷ (99, some can2, sensors_from 1 10)
    ∷ []

-- The inner loop, over the sensors of a group, and the outer one.
pub group_entries : ℕ → Option (List ℕ) → List ℕ → Result (List ℕ)
group_entries bus_id bus_name [] = ok []
group_entries bus_id bus_name (sensor_id ∷ sensor_ids) = do
  entry ← build_subscription_entry (pos sensor_id) (pos bus_id) bus_name
  entries ← group_entries bus_id bus_name sensor_ids
  ok (entry ++ entries)

pub catalog_entries : List Group → Result (List ℕ)
catalog_entries [] = ok []
catalog_entries ((bus_id, bus_name, sensor_ids) ∷ groups) = do
  entries ← group_entries bus_id bus_name sensor_ids
  rest ← catalog_entries groups
  ok (entries ++ rest)

pub build_subscription_catalog_payload : Result (List ℕ)
build_subscription_catalog_payload = do
  entries ← catalog_entries subscription_groups
  ok (encode_bytes_field 3 entries)

-- The topics, as field numbers and payloads, in the order in which they are sent.
unfoldable pub subscription_topics : List ℕ → List (ℕ × List ℕ)
subscription_topics catalog =
    (4, encode_bytes_field 1 [])
    ∷ (4, catalog)
    ∷ (4, encode_bytes_field 9 (encode_bytes_field 1 (encode_varint_field 1 (pos 0))))
    ∷ (5, encode_bytes_field 3 [])
    ∷ (12, encode_bytes_field 1 [])
    ∷ (9, encode_bytes_field 1 [])
    ∷ (15, [])
    ∷ []

module _ (b64encode : List ℕ → List ℕ) (drawn now : ℕ → ℤ) where
  -- The requests from the `n`-th one on.
  unfoldable pub requests_from : ℕ → List (ℕ × List ℕ) → List (List ℕ)
  requests_from n [] = []
  requests_from n ((topic_field_number, topic_payload) ∷ topics) =
      build_subscription_request b64encode topic_field_number topic_payload none (drawn n) (now n)
      ∷ requests_from (n + 1) topics

  pub build_subscription_requests : Result (List (List ℕ))
  build_subscription_requests = do
    catalog ← build_subscription_catalog_payload
    ok (requests_from 0 (subscription_topics catalog))
