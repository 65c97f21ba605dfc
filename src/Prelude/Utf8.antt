-- ===== src/Prelude/Utf8.antt =====
-- Python's `str.encode("utf-8")` and `bytes.decode("utf-8")`, over lists of code points and of bytes.
-- Both raise a subclass of `ValueError`: on a surrogate, and on anything that is no shortest form.
pub mod RoundTrip
pub mod Total
use Prim.Native.Nat.{ℕ, zero, suc, ◌+◌, ◌-◌, ◌*◌, ◌/◌, ◌%◌, ◌<◌, ◌≤◌}
use mathlib.Core.Path.{◌≡◌, refl}
use mathlib.Core.Logic.{◌⊎◌, inl, inr}
use mathlib.Core.Bool.{◌&&◌, ◌||◌}
use mathlib.Core.List.{List, [], ◌∷◌, ◌++◌}
use native.Mathlib.Omega.{arith}
use package.hymer_connect_ha.Prelude.Tests.{ltb, leb, if◌then◌else◌, Bool-cases, ltb→lt, ltb→le}
use package.hymer_connect_ha.Prelude.Lists.{All, length, length-append}
use package.hymer_connect_ha.Prelude.Leaves.{Leaves, second, nothing, Leaves-bind}
use package.hymer_connect_ha.Prelude.Result.{Result, ok, err, stuck, value_error, ◌>>=◌}

pub encode_char : ℕ → Result (List ℕ)
encode_char c =
    if ltb c 0x80
    then ok (c ∷ [])
    else if ltb c 0x800
    then ok ((0xc0 + c / 64) ∷ (0x80 + c % 64) ∷ [])
    else if leb 0xd800 c && leb c 0xdfff
    then err value_error
    else if ltb c 0x1_0000
    then ok ((0xe0 + c / 4096) ∷ (0x80 + c / 64 % 64) ∷ (0x80 + c % 64) ∷ [])
    else ok
        ((0xf0 + c / 262144) ∷ (0x80 + c / 4096 % 64) ∷ (0x80 + c / 64 % 64) ∷ (0x80 + c % 64) ∷ [])

unfoldable pub encode_utf8 : List ℕ → Result (List ℕ)
unfolding encode_char
encode_utf8 [] = ok []
encode_utf8 (c ∷ text) = do first ← encode_char c; rest ← encode_utf8 text; ok (first ++ rest)

-- A code point that can be encoded.
abbrev pub IsScalar : ℕ → Type 0
IsScalar c = (c < 0xd800) ⊎ ((0xdfff < c) × (c < 0x11_0000))

-- The low six bits of a continuation byte.
pub tail_byte : List ℕ → Result (ℕ × List ℕ)
tail_byte [] = err value_error
tail_byte (b ∷ rest) = if leb 0x80 b && leb b 0xbf then ok (b - 0x80, rest) else err value_error

pub scalar_of_three : ℕ → List ℕ → Result (ℕ × List ℕ)
scalar_of_three c rest =
    if ltb c 0x800 || (leb 0xd800 c && leb c 0xdfff) then err value_error else ok (c, rest)

pub scalar_of_four : ℕ → List ℕ → Result (ℕ × List ℕ)
scalar_of_four c rest = if ltb c 0x1_0000 || leb 0x11_0000 c then err value_error else ok (c, rest)

-- One character by its lead byte, in shortest form only, and the bytes behind it.
pub decode_char : ℕ → List ℕ → Result (ℕ × List ℕ)
unfolding tail_byte scalar_of_three scalar_of_four
decode_char a rest =
    if ltb a 0x80
    then ok (a, rest)
    else if leb 0xc2 a && leb a 0xdf
    then (do (x, rest) ← tail_byte rest; ok ((a - 0xc0) * 64 + x, rest))
    else if leb 0xe0 a && leb a 0xef
    then (do
      (x, rest) ← tail_byte rest
      (y, rest) ← tail_byte rest
      scalar_of_three ((a - 0xe0) * 4096 + x * 64 + y) rest)
    else if leb 0xf0 a && leb a 0xf4
    then (do
      (x, rest) ← tail_byte rest
      (y, rest) ← tail_byte rest
      (z, rest) ← tail_byte rest
      scalar_of_four ((a - 0xf0) * 262144 + x * 4096 + y * 64 + z) rest)
    else err value_error

pub decode_loop : ℕ → List ℕ → Result (List ℕ)
unfolding decode_char
decode_loop fuel [] = ok []
decode_loop zero (a ∷ rest) = stuck
decode_loop (suc fuel) (a ∷ rest) = do
  (c, rest) ← decode_char a rest
  text ← decode_loop fuel rest
  ok (c ∷ text)

-- A character takes a byte at least.
unfoldable pub decode_utf8 : List ℕ → Result (List ℕ)
unfolding decode_loop
decode_utf8 bytes = decode_loop (length bytes) bytes
