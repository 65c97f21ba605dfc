-- ===== src/Prelude/Utf8/Total.antt =====
-- The UTF-8 decoder ends on all bytes.
use Prim.Native.Nat.{ℕ, zero, suc, ◌+◌, ◌-◌, ◌*◌, ◌≤◌}
use mathlib.Core.List.{List, [], ◌∷◌}
use native.Mathlib.Omega.{arith}
use package.hymer_connect_ha.Prelude.Lists.{length}
use package.hymer_connect_ha.Prelude.Leaves.{Leaves, second, nothing, Leaves-bind}
use package.hymer_connect_ha.Prelude.Result.{Result, ok, ◌>>=◌}
use package.hymer_connect_ha.Prelude.Utf8.{
  tail_byte, scalar_of_three, scalar_of_four, decode_char, decode_loop, decode_utf8,
}

tail_byte-Leaves : (bytes : List ℕ) → Leaves second (length bytes) (tail_byte bytes)
unfolding tail_byte
tail_byte-Leaves [] = tt
tail_byte-Leaves (b ∷ rest) = ground arith

scalar-Leaves :
    (c n : ℕ) (rest : List ℕ)
    → length rest ≤ n
    → Leaves second n (scalar_of_three c rest) × Leaves second n (scalar_of_four c rest)
unfolding scalar_of_three scalar_of_four
scalar-Leaves c n rest h = (ground arith, ground arith)

tail_then :
    (bytes : List ℕ) (n : ℕ) (f : ℕ → List ℕ → Result (ℕ × List ℕ))
    → length bytes ≤ n
    → ((x : ℕ) (rest : List ℕ) → length rest ≤ n → Leaves second n (f x rest))
    → Leaves second n (tail_byte bytes >>= λ p. f p.0 p.1)
tail_then bytes n f h k =
    Leaves-bind second second (length bytes) n (tail_byte bytes) _ (tail_byte-Leaves bytes)
      (λ p l. k p.0 p.1 (omega arith))

decode_char-Leaves : (a : ℕ) (rest : List ℕ) → Leaves second (length rest) (decode_char a rest)
unfolding decode_char
decode_char-Leaves a rest =
    let n = length rest in
    let two = tail_then rest n (λ x r. ok ((a - 0xc0) * 64 + x, r)) (omega arith) (λ x r h. h) in
    let three =
      tail_then rest n
        (λ x r. tail_byte r >>= λ p. scalar_of_three ((a - 0xe0) * 4096 + x * 64 + p.0) p.1)
        (omega arith)
        (λ x r h.
          tail_then r n (λ y r. scalar_of_three ((a - 0xe0) * 4096 + x * 64 + y) r) h
            (λ y r h. (scalar-Leaves ((a - 0xe0) * 4096 + x * 64 + y) n r h).0)) in
    let four =
      tail_then rest n
        (λ x r. tail_byte r >>= λ p. tail_byte p.1 >>= λ q.
          scalar_of_four ((a - 0xf0) * 262144 + x * 4096 + p.0 * 64 + q.0) q.1)
        (omega arith)
        (λ x r h.
          tail_then r n
            (λ y r. tail_byte r >>= λ q.
              scalar_of_four ((a - 0xf0) * 262144 + x * 4096 + y * 64 + q.0) q.1)
            h
            (λ y r h.
              tail_then r n (λ z r. scalar_of_four ((a - 0xf0) * 262144 + x * 4096 + y * 64 + z) r)
                h
                (λ z r h.
                  (scalar-Leaves ((a - 0xf0) * 262144 + x * 4096 + y * 64 + z) n r h).1))) in
    ground (arith, two, three, four)

decode_loop-Leaves :
    (fuel : ℕ) (bytes : List ℕ) → length bytes ≤ fuel → Leaves nothing 0 (decode_loop fuel bytes)
unfolding decode_loop
decode_loop-Leaves fuel [] h = omega arith
decode_loop-Leaves zero (a ∷ rest) h = absurd (omega arith)
decode_loop-Leaves (suc fuel) (a ∷ rest) h =
    Leaves-bind second nothing (length rest) 0 (decode_char a rest) _ (decode_char-Leaves a rest)
      (λ p k.
        Leaves-bind nothing nothing 0 0 (decode_loop fuel p.1) _
          (decode_loop-Leaves fuel p.1 (omega arith)) (λ text _. omega arith))

-- Decoding ends on all bytes.
pub decode_utf8-Leaves : (bytes : List ℕ) → Leaves nothing 0 (decode_utf8 bytes)
unfolding decode_utf8
decode_utf8-Leaves bytes = decode_loop-Leaves (length bytes) bytes (omega arith)
