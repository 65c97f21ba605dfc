-- ===== src/Response/Envelope.antt =====
-- What the decoders read of a well-formed message, said of its fields.
use hymer_connect_ha.Prelude.{
  ℕ, ◌≡◌, refl, ◌∙◌, arith, Option, none, some, List, [], ◌∷◌, ◌++◌, length, ◌==◌, if◌then◌else◌,
  All,
}
use mathlib.Core.List.{append_assoc, append-nil}
use hymer_connect_ha.Prelude.Result.{ok, err, value_error}
use hymer_connect_ha.Wire.Fields.{
  Field, varint, fixed64, delimited, fixed32, IsField, message_bytes,
}
use hymer_connect_ha.Response.{
  BleResponse, require, no_response, envelope_step, record_number, response_step,
  decode_ble_response_payload,
}
use hymer_connect_ha.Response.Scan.{fold, scan-message_bytes}
use hymer_connect_ha.Response.Meaning.{
  envelope_meaning, envelope_step-Follows, response_meaning, response_step-Follows,
}

-- `a` if it is there, else `b`.
abbrev pub or_else {ℓ} : {A : Type ℓ} → Option A → Option A → Option A
or_else none b = b
or_else (some a) b = some a

pub or_else-none {ℓ} : {A : Type ℓ} (a : Option A) → or_else a none ≡ a
or_else-none none = refl
or_else-none (some a) = refl

-- The last varint field, and the last delimited field, of number `n`.
unfoldable pub last_varint : ℕ → List Field → Option ℕ
last_varint n [] = none
last_varint n (varint m value ∷ fs) =
    or_else (last_varint n fs) (if m == n then some value else none)
last_varint n (fixed64 m bytes ∷ fs) = last_varint n fs
last_varint n (delimited m bytes ∷ fs) = last_varint n fs
last_varint n (fixed32 m bytes ∷ fs) = last_varint n fs

unfoldable pub last_delimited : ℕ → List Field → Option (List ℕ)
last_delimited n [] = none
last_delimited n (delimited m bytes ∷ fs) =
    or_else (last_delimited n fs) (if m == n then some bytes else none)
last_delimited n (varint m value ∷ fs) = last_delimited n fs
last_delimited n (fixed64 m bytes ∷ fs) = last_delimited n fs
last_delimited n (fixed32 m bytes ∷ fs) = last_delimited n fs

-- The numbers of the delimited fields, in order.
unfoldable pub delimited_numbers : List Field → List ℕ
delimited_numbers [] = []
delimited_numbers (delimited m bytes ∷ fs) = m ∷ delimited_numbers fs
delimited_numbers (varint m value ∷ fs) = delimited_numbers fs
delimited_numbers (fixed64 m bytes ∷ fs) = delimited_numbers fs
delimited_numbers (fixed32 m bytes ∷ fs) = delimited_numbers fs

fold-envelope :
    (fs : List Field) (s : Option (List ℕ))
    → fold envelope_meaning fs s ≡ ok (or_else (last_delimited 2 fs) s)
unfolding fold envelope_meaning last_delimited
fold-envelope [] s = refl
fold-envelope (delimited m bytes ∷ fs) s =
    ground (arith, fold-envelope fs (if m == 2 then some bytes else s))
fold-envelope (varint m value ∷ fs) s = fold-envelope fs s
fold-envelope (fixed64 m bytes ∷ fs) s = fold-envelope fs s
fold-envelope (fixed32 m bytes ∷ fs) s = fold-envelope fs s

-- What `r` becomes when the fields `fs` have been read.
abbrev pub read_into : List Field → BleResponse → BleResponse
read_into fs r = record {
  request_id = or_else (last_varint 1 fs) r.request_id;
  status = or_else (last_varint 2 fs) r.status;
  timestamp = or_else (last_varint 3 fs) r.timestamp;
  topic_fields = r.topic_fields ++ delimited_numbers fs;
}

fold-response :
    (fs : List Field) (r : BleResponse) → fold response_meaning fs r ≡ ok (read_into fs r)
unfolding fold response_meaning record_number last_varint delimited_numbers
fold-response [] r = rw append-nil
fold-response (varint m value ∷ fs) r = ground (arith, fold-response fs (record_number m value r))
fold-response (delimited m bytes ∷ fs) r =
    fold-response fs (record r { topic_fields = r.topic_fields ++ (m ∷ []) })
    ∙ rw (append_assoc r.topic_fields (m ∷ []) (delimited_numbers fs))
fold-response (fixed64 m bytes ∷ fs) r = fold-response fs r
fold-response (fixed32 m bytes ∷ fs) r = fold-response fs r

-- Where the last delimited field 2 of a well-formed message is a well-formed message of fields fs,
-- the response decoder returns the last varints 1, 2 and 3 of fs as request id, status and
-- timestamp, each absent where fs has none, and the numbers of the delimited fields of fs, in
-- order, as topics.
pub decode_ble_response_payload-message :
    (outer fs : List Field)
    → All IsField outer
    → All IsField fs
    → last_delimited 2 outer ≡ some (message_bytes fs)
    → decode_ble_response_payload (message_bytes outer)
      ≡ ok (record {
        request_id = last_varint 1 fs;
        status = last_varint 2 fs;
        timestamp = last_varint 3 fs;
        topic_fields = delimited_numbers fs;
      })
unfolding decode_ble_response_payload require
decode_ble_response_payload-message outer fs ho hf e =
    let first =
      scan-message_bytes envelope_step envelope_meaning envelope_step-Follows outer
        (length (message_bytes outer)) none ho (omega arith)
      ∙ fold-envelope outer none in
    let second =
      scan-message_bytes response_step response_meaning response_step-Follows fs
        (length (message_bytes fs)) no_response hf (omega arith)
      ∙ fold-response fs no_response in
    rw (first, e) (second ∙ simp or_else-none)

-- A well-formed message without a delimited field 2 is refused with ValueError by the response
-- decoder.
pub decode_ble_response_payload-no_response :
    (outer : List Field)
    → All IsField outer
    → last_delimited 2 outer ≡ none
    → decode_ble_response_payload (message_bytes outer) ≡ err value_error
unfolding decode_ble_response_payload require
decode_ble_response_payload-no_response outer ho e =
    let first =
      scan-message_bytes envelope_step envelope_meaning envelope_step-Follows outer
        (length (message_bytes outer)) none ho (omega arith)
      ∙ fold-envelope outer none in
    rw (first, e)
