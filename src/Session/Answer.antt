-- ===== src/Session/Answer.antt =====
-- Only a frame that answers the request ends its loop with a response.
use hymer_connect_ha.Prelude.{
  arith, ==→eq, ℕ, ◌≡◌, ◌∙◌, refl, sym, ap, Bool, true, false, Option, none, some, List, Bool-cases,
  inl, inr,
}
use hymer_connect_ha.Prelude.Int.{ℤ, pos, negsuc}
use hymer_connect_ha.Prelude.Result.{
  Error, transport_error, value_error, overflow_error, timeout_error, tls_error, Result, ok, err,
  stuck,
}
use hymer_connect_ha.Message.Identity.{set_values_frame_id}
use hymer_connect_ha.Message.{build_set_values_ble_pia_frame, app_pia_version}
use hymer_connect_ha.Response.{BleResponse, succeeded, decode_ble_response_frame}
use hymer_connect_ha.Session.{
  Stream, Waited, Connection, connected, write_plaintext, and_then, and_wait, judge_response,
  has_id,
}
use hymer_connect_ha.Session.Requests.{send_frame_await_response, send_values}
use hymer_connect_ha.Session.Waiting.{Delivered, await_answer-EndsWith}

pub judge_response_kept :
    (id : ℤ) (r : BleResponse)
    → has_id id r.request_id ≡ true
    → judge_response id (ok r) ≡ some (ok r)
unfolding judge_response
judge_response_kept id r e = rw (e, judge_response)

pub judge_response_passed :
    (id : ℤ) (r : BleResponse) → has_id id r.request_id ≡ false → judge_response id (ok r) ≡ none
unfolding judge_response
judge_response_passed id r e = rw (e, judge_response)

-- Steps that have returned.
and_then_inv {ℓ} :
    {A : Type ℓ} {B : Type 0} (first : Result A) (stream stream' : Stream) (next : A → Waited B)
    (b : B)
    → and_then first stream next ≡ (ok b, stream')
    → (a : A) × (first ≡ ok a) × (next a ≡ (ok b, stream'))
unfolding and_then
and_then_inv (ok a) stream stream' next b e = (a, refl, e)
and_then_inv (err x) stream stream' next b e = cc
and_then_inv stuck stream stream' next b e = cc

and_wait_inv :
    {A B : Type 0} (first : Waited A) (stream' : Stream) (next : A → Stream → Waited B) (b : B)
    → and_wait first next ≡ (ok b, stream')
    → (a : A) × (between : Stream) × (first ≡ (ok a, between)) × (next a between ≡ (ok b, stream'))
unfolding and_wait
and_wait_inv (ok a, between) stream' next b e = (a, between, refl, e)
and_wait_inv (err x, between) stream' next b e = cc
and_wait_inv (stuck, between) stream' next b e = cc

-- What a response that was judged an answer is.
judge_response-answer :
    (id : ℤ) (decoded : Result BleResponse) (r : BleResponse)
    → judge_response id decoded ≡ some (ok r)
    → (decoded ≡ ok r) × (has_id id r.request_id ≡ true)
unfolding judge_response
judge_response-answer id (ok response) r e = elim (Bool-cases (has_id id response.request_id)) [
  | inl same_id ↦
      let kept = judge_response_kept id response same_id in
      let same : response ≡ r = cc in
      (ap ok same, ap (λ (r : BleResponse). has_id id r.request_id) (sym same) ∙ same_id)
  | inr other_id ↦ let passed = judge_response_passed id response other_id in absurd (cc)
]
judge_response-answer id (err value_error) r e = cc
judge_response-answer id (err overflow_error) r e = cc
judge_response-answer id (err transport_error) r e = cc
judge_response-answer id (err timeout_error) r e = cc
judge_response-answer id (err tls_error) r e = cc
judge_response-answer id stuck r e = cc

-- The id of a request that a response has.
has_id_inv :
    (id : ℤ) (found : Option ℕ) → has_id id found ≡ true → (n : ℕ) × (id ≡ pos n) × (found ≡ some n)
unfolding has_id
has_id_inv (pos id) (some n) e = (id, refl, ap some (==→eq n id e))
has_id_inv (pos id) none e = ground (arith, e)
has_id_inv (negsuc id) found e = ground (arith, e)

module _ (crc32 : List ℕ → ℕ) where
  -- A frame of the stream is an answer to the request `id`: it decodes to a response with that id.
  abbrev pub Answers : ℤ → Stream → BleResponse → Type 0
  Answers id stream r =
      (frame : List ℕ) × Delivered frame stream.frame_buffer stream.pending_frames stream.events
      × (decode_ble_response_frame crc32 true frame ≡ ok r)
      × ((n : ℕ) × (id ≡ pos n) × (r.request_id ≡ some n))

  await-Answers :
      (c : Connection) (id : ℤ) (w : Option Error) (stream stream' : Stream) (r : BleResponse)
      → send_frame_await_response crc32 c id w stream ≡ (ok r, stream')
      → Answers id stream r
  unfolding send_frame_await_response
  await-Answers c id w stream stream' r e =
      let (_, written, waited) = and_then_inv (write_plaintext c w) stream stream' _ r e in
      let (frame, delivered, judged) =
        await_answer-EndsWith
          (λ frame. judge_response id (decode_ble_response_frame crc32 true frame)) stream.events
          stream.frame_buffer stream.pending_frames r stream' waited in
      let (decoded, same_id) =
        judge_response-answer id (decode_ble_response_frame crc32 true frame) r judged in
      (frame, delivered, decoded, has_id_inv id r.request_id same_id)

  -- For every CRC function: where a setValues command returns a Boolean, whatever events arrive,
  -- the transport was connected, and a frame that was pending, or that the reassembly gave for the
  -- notifications in order, decodes, with a valid CRC, to a response with the id of the request
  -- whose success is that Boolean.
  pub send_values-Answers :
      (drawn now : ℤ) (c : Connection) (values : List (List ℕ)) (w : Option Error)
      (stream stream' : Stream) (b : Bool)
      → send_values crc32 drawn now c values w stream ≡ (ok b, stream')
      → (connected c ≡ true) × ((r : BleResponse) × Answers drawn stream r × (succeeded r ≡ b))
  unfolding send_values
  send_values-Answers drawn now c values w stream stream' b e = elim (Bool-cases (connected c)) [
    | inr off ↦ let refused = send_values_off off in absurd (cc)
    | inl on ↦ (on, answered on)
  ]
    where
      send_values_off :
          connected c ≡ false
          → send_values crc32 drawn now c values w stream ≡ (err transport_error, stream)
      send_values_off off = rw (off, send_values)

      same_result :
          {between : Stream} (r : BleResponse)
          → ◌≡◌ {A = Waited Bool} (ok (succeeded r), between) (ok b, stream')
          → succeeded r ≡ b
      same_result r done = cc

      send_values_on :
          connected c ≡ true
          → send_values crc32 drawn now c values w stream
            ≡ and_then
                (build_set_values_ble_pia_frame crc32 drawn now values none none app_pia_version)
                stream
                (λ built.
                  and_wait
                    (send_frame_await_response crc32 c built.1 w stream)
                    (λ response stream'. (ok (succeeded response), stream')))
      send_values_on on = rw (on, send_values)

      answered : connected c ≡ true → (r : BleResponse) × Answers drawn stream r × (succeeded r ≡ b)
      answered on =
          let (built, framed, rest) =
            and_then_inv
              (build_set_values_ble_pia_frame crc32 drawn now values none none app_pia_version)
              stream stream' _ b (sym (send_values_on on) ∙ e) in
          let (r, between, waited, done) =
            and_wait_inv (send_frame_await_response crc32 c built.1 w stream) stream' _ b rest in
          let (frame, delivered, decoded, (n, is_n, has_n)) =
            await-Answers c built.1 w stream between r waited in
          let drawn_id =
            set_values_frame_id crc32 drawn now values none none app_pia_version built framed in
          (r, (frame, delivered, decoded, (n, sym drawn_id ∙ is_n, has_n)), same_result r done)
