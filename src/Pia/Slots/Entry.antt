-- ===== src/Pia/Slots/Entry.antt =====
-- What a sensor entry is read as, said of its fields: the last of each, and a fixed order of choice.
use mathlib.Core.Option
use hymer_connect_ha.Prelude.{
  ◌≢◌, ap, if◌then◌else◌, ◌==◌, ℕ, List, [], ◌∷◌, ◌≡◌, ◌∙◌, Option, none, some, refl, Bool, true,
  false, not, arith, All, map,
}
use hymer_connect_ha.Wire.Fields.{Field, varint, fixed64, delimited, fixed32, message_bytes}
use hymer_connect_ha.Response.Envelope.{or_else, or_else-none, last_varint}
use hymer_connect_ha.Pia.Wire.{Floats}
use hymer_connect_ha.Pia.Wire.Decoding.{IsWide, raw, decode_protobuf-message_bytes}
use hymer_connect_ha.Pia.Slots.{
  flag, integer, real, text, SlotValue, Candidates, candidates, candidate, number_candidate,
  text_candidate, try_string, best_value, entry_of, parse_sensor_entry,
}

abbrev pub nonzero : Option ℕ → Option Bool
nonzero none = none
nonzero (some n) = some (not (n == 0))

abbrev pub text_or : Option (List ℕ) → List ℕ → List ℕ
text_or none s = s
text_or (some t) s = t

-- The number or text, or what was there.
abbrev pub number_or : Option ℕ → ℕ → ℕ
number_or none n = n
number_or (some m) n = m

-- A later value before an earlier one, before what was there.
number_or-or_else :
    (a : Option ℕ) (b : Bool) (v s : ℕ)
    → number_or (or_else a (if b then some v else none)) s ≡ number_or a (if b then v else s)
number_or-or_else none true v s = refl
number_or-or_else none false v s = refl
number_or-or_else (some n) b v s = refl

text_or-or_else :
    (a b : Option (List ℕ)) (s : List ℕ) → text_or (or_else a b) s ≡ text_or a (text_or b s)
text_or-or_else none b s = refl
text_or-or_else (some t) b s = refl

or_else-or_else {ℓ} :
    {A : Type ℓ} (a b c : Option A) → or_else (or_else a b) c ≡ or_else a (or_else b c)
or_else-or_else none b c = refl
or_else-or_else (some x) b c = refl

or_else-or_else_if {ℓ} :
    {A : Type ℓ} (a : Option A) (b : Bool) (v : A) (c : Option A)
    → or_else (or_else a (if b then some v else none)) c ≡ or_else a (if b then some v else c)
or_else-or_else_if none true v c = refl
or_else-or_else_if none false v c = refl
or_else-or_else_if (some x) b v c = refl

nonzero-or_else :
    (a : Option ℕ) (b : Bool) (v : ℕ) (c : Option Bool)
    → or_else (nonzero (or_else a (if b then some v else none))) c
      ≡ or_else (nonzero a) (if b then some (not (v == 0)) else c)
nonzero-or_else none true v c = refl
nonzero-or_else none false v c = refl
nonzero-or_else (some x) b v c = refl

module _ (floats : Floats) (is_printable : ℕ → Bool) where
  open floats use {Float, unpack_single}

  -- The last delimited field of number `n` that holds printable text.
  unfoldable pub last_text : ℕ → List Field → Option (List ℕ)
  last_text n [] = none
  last_text n (delimited m bs ∷ fs) =
      or_else (last_text n fs) (if m == n then try_string floats is_printable bs else none)
  last_text n (varint m value ∷ fs) = last_text n fs
  last_text n (fixed64 m bs ∷ fs) = last_text n fs
  last_text n (fixed32 m bs ∷ fs) = last_text n fs

  unfoldable pub last_single : ℕ → List Field → Option Float
  last_single n [] = none
  last_single n (fixed32 m bs ∷ fs) =
      or_else (last_single n fs) (if m == n then some (unpack_single bs) else none)
  last_single n (varint m value ∷ fs) = last_single n fs
  last_single n (fixed64 m bs ∷ fs) = last_single n fs
  last_single n (delimited m bs ∷ fs) = last_single n fs

  -- What the candidates `c` become when the fields `fs` have been read.
  abbrev read_into : List Field → Candidates floats is_printable → Candidates floats is_printable
  read_into fs c = record {
    sensor_id = number_or (last_varint 1 fs) c.sensor_id;
    bus_id = number_or (last_varint 2 fs) c.bus_id;
    bus_name = text_or (last_text 10 fs) c.bus_name;
    value_3 = or_else (last_varint 3 fs) c.value_3;
    value_4 = or_else (last_text 4 fs) c.value_4;
    value_5 = or_else (nonzero (last_varint 5 fs)) c.value_5;
    value_6 = or_else (last_single 6 fs) c.value_6;
    value_7 = or_else (last_varint 7 fs) c.value_7;
  }

  -- One more field, field by field of the record.
  number_candidate-fields :
      (n v : ℕ) (c : Candidates floats is_printable)
      → number_candidate floats is_printable n v c ≡ record c {
        sensor_id = if n == 1 then v else c.sensor_id;
        bus_id = if n == 2 then v else c.bus_id;
        value_3 = if n == 3 then some v else c.value_3;
        value_5 = if n == 5 then some (not (v == 0)) else c.value_5;
        value_7 = if n == 7 then some v else c.value_7;
      }
  unfolding number_candidate
  number_candidate-fields n v c = ground arith

  text_candidate-fields :
      (n : ℕ) (o : Option (List ℕ)) (c : Candidates floats is_printable)
      → text_candidate floats is_printable n o c ≡ record c {
        bus_name = text_or (if n == 10 then o else none) c.bus_name;
        value_4 = or_else (if n == 4 then o else none) c.value_4;
      }
  unfolding text_candidate
  text_candidate-fields n none c = ground arith
  text_candidate-fields n (some s) c = ground arith

  double_ignored :
      (n : ℕ) (bs : List ℕ) (c : Candidates floats is_printable)
      → candidate floats is_printable (raw floats (fixed64 n bs)) c ≡ c
  unfolding candidate
  double_ignored n bs c = ground arith

  single_candidate :
      (n : ℕ) (bs : List ℕ) (c : Candidates floats is_printable)
      → candidate floats is_printable (raw floats (fixed32 n bs)) c
        ≡ record c { value_6 = if n == 6 then some (unpack_single bs) else c.value_6 }
  unfolding candidate
  single_candidate n bs c = ground arith

  candidates-fields :
      (fs : List Field) (c : Candidates floats is_printable)
      → candidates floats is_printable (map (raw floats) fs) c ≡ read_into fs c
  unfolding candidates candidate last_varint last_text last_single
  candidates-fields [] c = refl
  candidates-fields (varint n value ∷ fs) c =
      candidates-fields fs (number_candidate floats is_printable n value c)
      ∙ rw (number_candidate-fields n value c)
          (simp (number_or-or_else, or_else-or_else_if, nonzero-or_else))
  candidates-fields (fixed64 n bs ∷ fs) c =
      ap (candidates floats is_printable (map (raw floats) fs)) (double_ignored n bs c)
      ∙ candidates-fields fs c
  candidates-fields (delimited n bs ∷ fs) c =
      candidates-fields fs
        (text_candidate floats is_printable n (try_string floats is_printable bs) c)
      ∙ rw (text_candidate-fields n (try_string floats is_printable bs) c)
          (simp (text_or-or_else, or_else-or_else))
  candidates-fields (fixed32 n bs ∷ fs) c =
      ap (candidates floats is_printable (map (raw floats) fs)) (single_candidate n bs c)
      ∙ candidates-fields fs
          (record c { value_6 = if n == 6 then some (unpack_single bs) else c.value_6 })
      ∙ simp or_else-or_else_if

  -- The value that is chosen: text, float, uint, int, bool, whatever the order of the fields.
  unfoldable pub chosen : List Field → Option (SlotValue floats is_printable)
  chosen fs = or_else (Option.map text (last_text 4 fs)) (
      or_else (Option.map real (last_single 6 fs)) (
        or_else (Option.map integer (last_varint 3 fs)) (
          or_else (Option.map integer (last_varint 7 fs))
            (Option.map flag (nonzero (last_varint 5 fs))))))

  best_value-first :
      (s : Option (List ℕ)) (x : Option Float) (u i : Option ℕ) (b : Option Bool)
      → best_value floats is_printable s x u i b
        ≡ or_else (Option.map text s) (
            or_else
              (Option.map real x)
              (or_else (Option.map integer u) (or_else (Option.map integer i) (Option.map flag b))))
  unfolding best_value
  best_value-first (some s) x u i b = refl
  best_value-first none (some x) u i b = refl
  best_value-first none none (some u) i b = refl
  best_value-first none none none (some i) b = refl
  best_value-first none none none none (some b) = refl
  best_value-first none none none none none = refl

  entry_of-value :
      (c : Candidates floats is_printable) (o : Option (SlotValue floats is_printable))
      → o ≢ none
      → entry_of floats is_printable c o
        ≡ some (record {
          sensor_id = c.sensor_id;
          bus_id = c.bus_id;
          bus_name = c.bus_name;
          value = o;
        })
  unfolding entry_of
  entry_of-value c none there = elim (there refl) [ ]
  entry_of-value c (some v) there = refl

  -- For every choice of float operations and printable characters: a well-formed message whose
  -- fields hold a value is read as a sensor entry with its last varints 1 and 2 as sensor and bus
  -- id, 0 where there is none, its last printable text 10 as name, and one value chosen by type
  -- whatever the order of the fields: the last printable text 4, else the last float 6, else the
  -- last varint 3, else the last varint 7, else whether the last varint 5 is not 0.
  pub parse_sensor_entry-message :
      (fs : List Field)
      → All IsWide fs
      → chosen fs ≢ none
      → parse_sensor_entry floats is_printable (message_bytes fs)
        ≡ some (record {
          sensor_id = number_or (last_varint 1 fs) 0;
          bus_id = number_or (last_varint 2 fs) 0;
          bus_name = text_or (last_text 10 fs) [];
          value = chosen fs;
        })
  unfolding parse_sensor_entry chosen
  parse_sensor_entry-message fs h some_value =
      rw
        (
          decode_protobuf-message_bytes floats fs h,
          candidates-fields fs,
          or_else-none (last_text 4 fs),
          or_else-none (last_single 6 fs),
          or_else-none (last_varint 3 fs),
          or_else-none (last_varint 7 fs),
          or_else-none (nonzero (last_varint 5 fs)),
          best_value-first (last_text 4 fs) (last_single 6 fs) (last_varint 3 fs) (last_varint 7 fs)
              (nonzero (last_varint 5 fs)),
        )
        (entry_of-value _ _ some_value)
