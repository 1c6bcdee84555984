-- ===== src/Varint/Read.antt =====
-- The readers on any input, well formed or not.
use gophertunnel.Prelude.{
  ℕ, zero, suc, false, ◌+◌, ◌*◌, ◌%◌, ◌^◌, ◌≤◌, bit_and, bit_or, List, [], ◌∷◌, ◌++◌, ◌≡◌, refl, ap,
  arith, ◌==◌, length, All, inl, inr, Bool-cases,
}
use gophertunnel.Prelude.Results.{ok, err}
use gophertunnel.Errors.{varint_overflow}
use gophertunnel.Varint.{read_loop}

-- Whatever the source, a variable-length integer that is read takes at least one byte and at most
-- as many as the loop has rounds, from the front of the source.
pub read_loop_takes :
    (rounds w i v : ℕ) (src : List ℕ) (x : ℕ) (rest : List ℕ)
    → read_loop w rounds i v src ≡ ok (x, rest)
    → (front : List ℕ) × (src ≡ front ++ rest) × (1 ≤ length front) × (length front ≤ rounds)
unfolding read_loop
read_loop_takes zero w i v src x rest h = cc
read_loop_takes (suc rounds) w i v [] x rest h = cc
read_loop_takes (suc rounds) w i v (b ∷ src) x rest h = elim (Bool-cases (bit_and b 0x80 == 0)) [
  | inl last ↦ (b ∷ [], ground arith, omega arith, omega arith)
  | inr more ↦
      let (front, e, lo, hi) =
        read_loop_takes rounds w (i + 7) (bit_or v (bit_and b 0x7f * 2 ^ i % 2 ^ w)) src x rest
          (ground arith) in
      (b ∷ front, ap (λ t. b ∷ t) e, omega arith, omega arith)
]

-- As many bytes with the top bit set as the loop has rounds are an overflow error, whatever
-- follows.
pub read_loop_overflow :
    (bs : List ℕ) (w i v : ℕ) (rest : List ℕ)
    → All (λ b. (bit_and b 0x80 == 0) ≡ false) bs
    → read_loop w (length bs) i v (bs ++ rest) ≡ err varint_overflow
unfolding read_loop
read_loop_overflow [] w i v rest h = refl
read_loop_overflow (b ∷ bs) w i v rest (hb, hbs) =
    rw hb (read_loop_overflow bs w (i + 7) (bit_or v (bit_and b 0x7f * 2 ^ i % 2 ^ w)) rest hbs)
