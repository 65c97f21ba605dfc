-- ===== src/Response/Scan.antt =====
-- The field loop: it ends on every input, and over an encoded message it is a fold over its fields.
use hymer_connect_ha.Prelude.{
  ℕ, zero, suc, ◌-◌, ◌/◌, ◌^◌, ◌≤◌, ◌≡◌, refl, bit_and, arith, List, [], ◌∷◌, ◌++◌, length,
  length-append, All, ◌∙◌,
}
use hymer_connect_ha.Prelude.Result.{Result, ok, err, stuck, ◌>>=◌}
use hymer_connect_ha.Wire.{decode_varint}
use hymer_connect_ha.Wire.Fields.{
  length-field_bytes, Field, IsField, field_bytes, message_bytes, field_number, wire_type, body,
  decode_key, key_number, key_type,
}
use hymer_connect_ha.Prelude.Leaves.{Leaves, second, nothing, Leaves-bind, Leaves-mono}
use hymer_connect_ha.Wire.Reading.{decode_varint-Leaves}
use hymer_connect_ha.Response.{StepFunction, scan}

-- A step ends, and leaves no more than the buffer that it was given.
abbrev pub IsReader : {S : Type 0} → StepFunction S → Type 0
IsReader {S} step =
    (n w : ℕ) (buffer : List ℕ) (s : S) → Leaves second (length buffer) (step n w buffer s)

module _ {S : Type 0} (step : StepFunction S) (reads : IsReader step) where
  -- One round takes a byte at least, so as many rounds as bytes are enough.
  pub scan-Leaves :
      (fuel : ℕ) (buffer : List ℕ) (s : S)
      → length buffer ≤ fuel
      → Leaves nothing 0 (scan step fuel buffer s)
  unfolding scan
  scan-Leaves fuel [] s h = omega arith
  scan-Leaves zero (b ∷ buffer) s h = absurd (omega arith)
  scan-Leaves (suc fuel) (b ∷ buffer) s h =
      Leaves-bind second nothing (length buffer) 0 (decode_varint (b ∷ buffer)) _
        (Leaves-mono second (length (b ∷ buffer) - 1) (length buffer) (decode_varint (b ∷ buffer))
          (omega arith) (decode_varint-Leaves (b ∷ buffer)))
        (λ p k.
          Leaves-bind second nothing (length p.1) 0 (step (p.0 / 2 ^ 3) (bit_and p.0 7) p.1 s) _
            (reads (p.0 / 2 ^ 3) (bit_and p.0 7) p.1 s)
            (λ q l. scan-Leaves fuel q.1 q.0 (omega arith)))

-- On a field's body the step does what `meaning` says, whatever follows, and lands behind the field.
abbrev pub Follows : {S : Type 0} → StepFunction S → (Field → S → Result S) → Type 0
Follows {S} step meaning =
    (f : Field) (rest : List ℕ) (s : S)
    → IsField f
    → step (field_number f) (wire_type f) (body f ++ rest) s ≡ (meaning f s >>= λ s'. ok (s', rest))

unfoldable pub fold : {S : Type 0} → (Field → S → Result S) → List Field → S → Result S
fold meaning [] s = ok s
fold meaning (f ∷ fs) s = meaning f s >>= λ s'. fold meaning fs s'

bind_ok :
    {A B C : Type 0} (r : Result A) (c : C) (k : A → C → Result B)
    → ((r >>= λ a. let p : A × C = (a, c) in ok p) >>= λ p. k p.0 p.1) ≡ (r >>= λ a. k a c)
bind_ok (ok a) c k = refl
bind_ok (err e) c k = refl
bind_ok stuck c k = refl

bind_ext :
    {A B : Type 0} (r : Result A) {f g : A → Result B}
    → ((a : A) → f a ≡ g a)
    → (r >>= f) ≡ (r >>= g)
bind_ext (ok a) h = h a
bind_ext (err e) h = refl
bind_ext stuck h = refl

module _ {S : Type 0} (step : StepFunction S) (meaning : Field → S → Result S) where
  scan_nonempty :
      (fuel : ℕ) (buffer : List ℕ) (s : S)
      → 1 ≤ length buffer
      → scan step (suc fuel) buffer s ≡ (
          decode_varint buffer >>= λ p.
          step (p.0 / 2 ^ 3) (bit_and p.0 0x07) p.1 s >>= λ q. scan step fuel q.1 q.0)
  unfolding scan
  scan_nonempty fuel [] s h = absurd (omega arith)
  scan_nonempty fuel (b ∷ buffer) s h = refl

  scan_field :
      Follows step meaning
      → (f : Field) (fuel : ℕ) (rest : List ℕ) (s : S) → IsField f
      → scan step (suc fuel) (field_bytes f ++ rest) s
        ≡ (meaning f s >>= λ s'. scan step fuel rest s')
  scan_field follows f fuel rest s h =
      rw
        (
          scan_nonempty fuel (field_bytes f ++ rest) s
              (omega (arith, length-append (field_bytes f) rest, length-field_bytes f)),
          decode_key f rest h,
        )
        (rw (key_number f, key_type f)
          (rw (follows f rest s h) (bind_ok (meaning f s) rest (λ s' r. scan step fuel r s'))))

  -- Over the bytes of a message the loop is the fold over its fields.
  pub scan-message_bytes :
      Follows step meaning
      → (fs : List Field) (fuel : ℕ) (s : S) → All IsField fs
      → length (message_bytes fs) ≤ fuel
      → scan step fuel (message_bytes fs) s ≡ fold meaning fs s
  unfolding message_bytes fold
  scan-message_bytes follows [] fuel s h k = unfold scan in refl
  scan-message_bytes follows (f ∷ fs) zero s h k =
      absurd (omega (arith, length-append (field_bytes f) (message_bytes fs), length-field_bytes f))
  scan-message_bytes follows (f ∷ fs) (suc fuel) s h k =
      let k' : length (message_bytes fs) ≤ fuel =
        omega (arith, length-append (field_bytes f) (message_bytes fs), length-field_bytes f) in
      scan_field follows f fuel (message_bytes fs) s h.0
      ∙ bind_ext (meaning f s) (λ s'. scan-message_bytes follows fs fuel s' h.1 k')
