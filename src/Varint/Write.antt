-- ===== src/Varint/Write.antt =====
-- What the writers emit: their loop unrolled, and its length.
use gophertunnel.Prelude.{
  ℕ, zero, suc, ◌+◌, ◌/◌, ◌%◌, ◌^◌, ◌≤◌, ◌<◌, [], ◌∷◌, ◌≡◌, refl, arith, ltb, length, All,
  if◌then◌else◌,
}
use gophertunnel.Bits.{bit_or_top}
use gophertunnel.Varint.{write_loop, write_varuint32, write_varuint64}

-- More rounds than the number has groups change nothing.
write_loop_rounds : (n m x : ℕ) → x ≤ n → x ≤ m → write_loop n x ≡ write_loop m x
unfolding write_loop
write_loop_rounds zero zero x p q = refl
write_loop_rounds zero (suc m) x p q = ground arith
write_loop_rounds (suc n) zero x p q = ground arith
write_loop_rounds (suc n) (suc m) x p q = ground (arith, write_loop_rounds n m (x / 128))

-- The loop at the number itself is Go's loop, one round at a time.
pub write_loop-unroll :
    (x : ℕ)
    → write_loop x x
      ≡ (if ltb x 128 then x ∷ [] else (x % 128 + 128) ∷ write_loop (x / 128) (x / 128))
unfolding write_loop
write_loop-unroll zero = refl
write_loop-unroll (suc n) =
    ground (arith, bit_or_top (suc n % 256), write_loop_rounds n (suc n / 128) (suc n / 128))

pub length-write_loop :
    (k x : ℕ) → x < 128 ^ suc k → (1 ≤ length (write_loop x x)) × (length (write_loop x x) ≤ k + 1)
length-write_loop zero x h = ground (arith, write_loop-unroll x)
length-write_loop (suc k) x h =
    ground (arith, write_loop-unroll x, length-write_loop k (x / 128) (omega arith))

pub write_loop-bytes : (k x : ℕ) → x < 128 ^ suc k → All (λ b. b < 256) (write_loop x x)
write_loop-bytes zero x h = ground (arith, write_loop-unroll x)
write_loop-bytes (suc k) x h =
    ground (arith, write_loop-unroll x, write_loop-bytes k (x / 128) (omega arith))

-- WriteVaruint32 writes 1 to 5 bytes for a uint32, each below 256.
pub write_varuint32_shape :
    (x : ℕ)
    → x < 2 ^ 32
    → (1 ≤ length (write_varuint32 x))
      × (length (write_varuint32 x) ≤ 5)
      × All (λ b. b < 256) (write_varuint32 x)
unfolding write_varuint32
write_varuint32_shape x h =
    let (lo, hi) = length-write_loop 4 x (omega arith) in
    (lo, hi, write_loop-bytes 4 x (omega arith))

-- WriteVaruint64 writes 1 to 10 bytes for a uint64, each below 256.
pub write_varuint64_shape :
    (x : ℕ)
    → x < 2 ^ 64
    → (1 ≤ length (write_varuint64 x))
      × (length (write_varuint64 x) ≤ 10)
      × All (λ b. b < 256) (write_varuint64 x)
unfolding write_varuint64
write_varuint64_shape x h =
    let (lo, hi) = length-write_loop 9 x (omega arith) in
    (lo, hi, write_loop-bytes 9 x (omega arith))
