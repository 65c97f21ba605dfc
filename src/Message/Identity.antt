-- ===== src/Message/Identity.antt =====
-- The request id that a framed builder returns.
use hymer_connect_ha.Prelude.{ℕ, ◌≡◌, List, Option}
use hymer_connect_ha.Prelude.Int.{ℤ}
use hymer_connect_ha.Prelude.Result.{Result, ok, err, stuck, ◌>>=◌}
use hymer_connect_ha.Message.{
  Str, or_drawn, build_set_values_topic, build_topic_frame, build_set_values_ble_pia_frame,
}

module _ {B : Type 0} (id : ℤ) (built : B × ℤ) where
  tagged : (frame : Result B) → (frame >>= λ f. ok (f, id)) ≡ ok built → built.1 ≡ id
  tagged (ok f) e = cc
  tagged (err x) e = cc
  tagged stuck e = cc

  tagged_later :
      {A : Type 0} (topic : Result A) (frame : A → Result B)
      → (topic >>= λ t. frame t >>= λ f. ok (f, id)) ≡ ok built
      → built.1 ≡ id
  tagged_later (ok t) frame e = tagged (frame t) e
  tagged_later (err x) frame e = cc
  tagged_later stuck frame e = cc

-- The setValues builder returns the id that was given, else the one that was drawn.
pub set_values_frame_id :
    (crc32 : List ℕ → ℕ) (drawn now : ℤ) (values : List (List ℕ)) (id time : Option ℤ)
    (version : Str) (built : List ℕ × ℤ)
    → build_set_values_ble_pia_frame crc32 drawn now values id time version ≡ ok built
    → built.1 ≡ or_drawn id drawn
unfolding build_set_values_ble_pia_frame
set_values_frame_id crc32 drawn now values id time version built e =
    tagged_later (or_drawn id drawn) built (build_set_values_topic values)
      (λ topic. build_topic_frame crc32 drawn now 4 topic (or_drawn id drawn) time version) e
