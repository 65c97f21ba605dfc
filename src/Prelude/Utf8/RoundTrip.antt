-- ===== src/Prelude/Utf8/RoundTrip.antt =====
-- A text without surrogates through UTF-8 and back.
use Prim.Native.Nat.{ℕ, suc, ◌+◌, ◌-◌, ◌/◌, ◌%◌, ◌<◌, ◌≤◌}
use mathlib.Core.Path.{◌≡◌, refl}
use mathlib.Core.Logic.{inl, inr}
use mathlib.Core.List.{List, [], ◌∷◌, ◌++◌}
use native.Mathlib.Omega.{arith}
use package.hymer_connect_ha.Prelude.Tests.{ltb, Bool-cases, ltb→lt, ltb→le}
use package.hymer_connect_ha.Prelude.Lists.{All, length, length-append}
use package.hymer_connect_ha.Prelude.Result.{Result, ok, ◌>>=◌}
use package.hymer_connect_ha.Prelude.Utf8.{
  encode_char, encode_utf8, IsScalar, decode_char, decode_loop, decode_utf8,
}

-- One lemma for each length of the encoding.
one_byte : (c : ℕ) (rest : List ℕ) → c < 0x80 → decode_char c rest ≡ ok (c, rest)
unfolding decode_char
one_byte c rest h = ground arith

two_bytes :
    (c : ℕ) (rest : List ℕ)
    → 0x80 ≤ c
    → c < 0x800
    → decode_char (0xc0 + c / 64) ((0x80 + c % 64) ∷ rest) ≡ ok (c, rest)
unfolding decode_char
two_bytes c rest lo hi = ground arith

three_bytes :
    (c : ℕ) (rest : List ℕ)
    → 0x800 ≤ c
    → c < 0x1_0000
    → IsScalar c
    → decode_char (0xe0 + c / 4096) ((0x80 + c / 64 % 64) ∷ (0x80 + c % 64) ∷ rest) ≡ ok (c, rest)
unfolding decode_char
three_bytes c rest lo hi s = ground arith

four_bytes :
    (c : ℕ) (rest : List ℕ)
    → 0x1_0000 ≤ c
    → c < 0x11_0000
    → decode_char
        (0xf0 + c / 262144)
        ((0x80 + c / 4096 % 64) ∷ (0x80 + c / 64 % 64) ∷ (0x80 + c % 64) ∷ rest)
      ≡ ok (c, rest)
unfolding decode_char
four_bytes c rest lo hi = ground arith

-- How the bytes `encoded` of one character `c` are read.
abbrev Reads : ℕ → List ℕ → Type 0
Reads c encoded =
    (1 ≤ length encoded)
    × ((fuel : ℕ) (rest : List ℕ)
        → decode_loop (suc fuel) (encoded ++ rest)
          ≡ (decode_loop fuel rest >>= λ text. ok (c ∷ text)))

Reads_lem :
    (c a : ℕ) (tail : List ℕ)
    → ((rest : List ℕ) → decode_char a (tail ++ rest) ≡ ok (c, rest))
    → Reads c (a ∷ tail)
unfolding decode_loop
Reads_lem c a tail h = (omega arith, λ fuel rest. rw (h rest))

encode_three :
    (c : ℕ)
    → 0x800 ≤ c
    → c < 0x1_0000
    → IsScalar c
    → encode_char c ≡ ok ((0xe0 + c / 4096) ∷ (0x80 + c / 64 % 64) ∷ (0x80 + c % 64) ∷ [])
unfolding encode_char
encode_three c lo hi s = ground arith

encode_four :
    (c : ℕ)
    → 0x1_0000 ≤ c
    → encode_char c
      ≡ ok (
          (0xf0 + c / 262144)
          ∷ (0x80 + c / 4096 % 64)
          ∷ (0x80 + c / 64 % 64)
          ∷ (0x80 + c % 64)
          ∷ [])
unfolding encode_char
encode_four c lo = ground arith

scalar_lt : (c : ℕ) → IsScalar c → c < 0x11_0000
scalar_lt c s = ground arith

encode_char-Reads :
    (c : ℕ) → IsScalar c → (encoded : List ℕ) × (encode_char c ≡ ok encoded) × Reads c encoded
encode_char-Reads c s = elim (Bool-cases (ltb c 0x80)) [
  | inl e ↦ (
    c ∷ [],
    unfold encode_char in rw e,
    Reads_lem c c [] (λ rest. one_byte c rest (ltb→lt c 0x80 e)),
  )
  | inr e ↦ elim (Bool-cases (ltb c 0x800)) [
    | inl e' ↦ (
      (0xc0 + c / 64) ∷ (0x80 + c % 64) ∷ [],
      unfold encode_char in rw (e, e'),
      Reads_lem c _ ((128 + c % 64) ∷ [])
          (λ rest. two_bytes c rest (ltb→le c 0x80 e) (ltb→lt c 0x800 e')),
    )
    | inr e' ↦ elim (Bool-cases (ltb c 0x1_0000)) [
      | inl e'' ↦ (
        _,
        encode_three c (ltb→le c 0x800 e') (ltb→lt c 0x1_0000 e'') s,
        Reads_lem c _ ((128 + c / 64 % 64) ∷ (128 + c % 64) ∷ [])
            (λ rest. three_bytes c rest (ltb→le c 0x800 e') (ltb→lt c 0x1_0000 e'') s),
      )
      | inr e'' ↦ (
        _,
        encode_four c (ltb→le c 0x1_0000 e''),
        Reads_lem c _ ((128 + c / 4096 % 64) ∷ (128 + c / 64 % 64) ∷ (128 + c % 64) ∷ [])
            (λ rest. four_bytes c rest (ltb→le c 0x1_0000 e'') (scalar_lt c s)),
      )
    ]
  ]
]

abbrev ok_or_nil : Result (List ℕ) → List ℕ
ok_or_nil (ok bytes) = bytes
ok_or_nil _ = []

-- The bytes of a text of scalars, which always exist.
unfoldable pub utf8 : List ℕ → List ℕ
utf8 [] = []
utf8 (c ∷ text) = ok_or_nil (encode_char c) ++ utf8 text

pub encode_utf8-eq-utf8 : (text : List ℕ) → All IsScalar text → encode_utf8 text ≡ ok (utf8 text)
unfolding encode_utf8 utf8
encode_utf8-eq-utf8 [] h = refl
encode_utf8-eq-utf8 (c ∷ text) (hc, h) =
    let (encoded, e, _) = encode_char-Reads c hc in rw (e, encode_utf8-eq-utf8 text h)

-- One more unit of fuel than bytes is left over at each character.
decode_loop-utf8 :
    (text : List ℕ) (fuel : ℕ)
    → All IsScalar text
    → length (utf8 text) ≤ fuel
    → decode_loop fuel (utf8 text) ≡ ok text
unfolding utf8
decode_loop-utf8 [] fuel h k = unfold decode_loop in refl
decode_loop-utf8 (c ∷ text) fuel (hc, h) k =
    let (encoded, e, r) = encode_char-Reads c hc in
    let (long, reads) = r in
    let k' : length encoded + length (utf8 text) ≤ fuel =
      omega (arith, length-append encoded (utf8 text), rw e at k) in
    let f : fuel ≡ suc (fuel - 1) = omega arith in
    rw e (rw f (rw (reads, decode_loop-utf8 text (fuel - 1) h (omega arith))))

-- A text without surrogates comes back from its bytes.
pub decode_utf8-utf8 : (text : List ℕ) → All IsScalar text → decode_utf8 (utf8 text) ≡ ok text
unfolding decode_utf8
decode_utf8-utf8 text h = decode_loop-utf8 text _ h (omega arith)
