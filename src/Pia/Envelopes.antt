-- ===== src/Pia/Envelopes.antt =====
-- The search for a request or a response wrapper in a message, _find_request_message and
-- _find_response_message of pia_decoder.py. A nested value is shorter than the message, so as many
-- levels of fuel as bytes are enough. base64 is a parameter: `b64decode` gives none where it raises.
use hymer_connect_ha.Prelude.{
  ℕ, zero, suc, ◌&&◌, ◌||◌, Option, none, some, List, [], ◌∷◌, length, ltb, ◌==◌, if◌then◌else◌,
}
use hymer_connect_ha.Pia.Wire.{
  Floats, RawField, number, bytes, float, decode_protobuf, first_number,
}

pub record RequestMessage : Type 0 where
  pub request_id : ℕ
  pub timestamp : ℕ

pub record ResponseMessage : Type 0 where
  pub request_id : ℕ
  pub status : ℕ
  pub timestamp : Option ℕ
  pub payload : Option (List ℕ)

-- The first result that is there.
abbrev first_of {ℓ} : {A : Type ℓ} → Option A → Option A → Option A
first_of none later = later
first_of (some a) later = some a

-- `int(request.get("request_id", 0)) or None`
unfoldable pub nonzero_id : Option RequestMessage → Option ℕ
nonzero_id none = none
nonzero_id (some request) = if request.request_id == 0 then none else some request.request_id

-- The search of a wrapper that carries both numbers, else the search below it.
unfoldable pub request_or_nested :
    Option ℕ → Option ℕ → Option RequestMessage → Option RequestMessage
request_or_nested (some id) (some time) nested = some (record { request_id = id; timestamp = time })
request_or_nested (some id) none nested = nested
request_or_nested none time nested = nested

pub response_or_nested :
    Option ℕ
    → Option ℕ
    → Option ℕ
    → Option (List ℕ)
    → Option ResponseMessage
    → Option ResponseMessage
response_or_nested (some id) (some status) time payload nested =
    some (record { request_id = id; status = status; timestamp = time; payload = payload })
response_or_nested (some id) none time payload nested = nested
response_or_nested none status time payload nested = nested

module _ (floats : Floats) where
  -- The loop over the fields, `find` being the recursive call.
  unfoldable pub find_nested {ℓ} :
      {A : Type ℓ} → (List ℕ → Option A) → List (RawField floats) → Option A
  find_nested find [] = none
  find_nested find ((fn, wt, bytes v) ∷ fields) =
      let later = find_nested find fields in
      if wt == 2 && ltb 2 (length v) then first_of (find v) later else later
  find_nested find ((fn, wt, number v) ∷ fields) = find_nested find fields
  find_nested find ((fn, wt, float x) ∷ fields) = find_nested find fields

  -- The first delimited field of number 5, 6 or 19.
  pub first_payload : List (RawField floats) → Option (List ℕ)
  first_payload [] = none
  first_payload ((fn, wt, bytes v) ∷ fields) =
      if wt == 2 && (fn == 5 || fn == 6 || fn == 19) then some v else first_payload fields
  first_payload ((fn, wt, number v) ∷ fields) = first_payload fields
  first_payload ((fn, wt, float x) ∷ fields) = first_payload fields

  unfoldable pub find_request : ℕ → List ℕ → Option RequestMessage
  find_request zero raw = none
  find_request (suc levels) raw =
      let fields = decode_protobuf floats raw in
      let nested = find_nested (find_request levels) fields in
      request_or_nested (first_number floats 1 fields) (first_number floats 3 fields) nested

  unfoldable pub find_request_message : List ℕ → Option RequestMessage
  find_request_message raw = find_request (suc (length raw)) raw

  pub find_response : ℕ → List ℕ → Option ResponseMessage
  find_response zero raw = none
  find_response (suc levels) raw =
      let fields = decode_protobuf floats raw in
      let nested = find_nested (find_response levels) fields in
      response_or_nested (first_number floats 1 fields) (first_number floats 2 fields)
        (first_number floats 3 fields) (first_payload fields) nested

  pub find_response_message : List ℕ → Option ResponseMessage
  find_response_message raw = find_response (suc (length raw)) raw

  module _ (b64decode : List ℕ → Option (List ℕ)) where
    unfoldable pub extract_request_id_from_payload : List ℕ → Option ℕ
    extract_request_id_from_payload b64_payload = elim (b64decode b64_payload) [
      | none ↦ none
      | some raw ↦ nonzero_id (find_request_message raw)
    ]

    pub decode_transport_response : List ℕ → Option ResponseMessage
    decode_transport_response b64_payload = elim (b64decode b64_payload) [
      | none ↦ none
      | some raw ↦ find_response_message raw
    ]
