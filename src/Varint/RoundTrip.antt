-- ===== src/Varint/RoundTrip.antt =====
-- The readers invert the writers, whatever follows on the wire.
use gophertunnel.Prelude.{
  ℕ, zero, suc, ◌+◌, ◌*◌, ◌/◌, ◌%◌, ◌^◌, ◌≤◌, ◌<◌, bit_or, List, ◌++◌, ◌≡◌, ap, arith,
}
use gophertunnel.Prelude.Results.{ok}
use gophertunnel.Bits.{bit_and_low, bit_and_top, bit_or_shifted}
use gophertunnel.Varint.{
  write_loop, write_varuint32, write_varuint64, read_loop, varuint32, varuint64, zigzag32, zigzag64,
  unzigzag32, unzigzag64, write_varint32, write_varint64, varint32, varint64,
}
use gophertunnel.Varint.Write.{write_loop-unroll}
use native.Mathlib.Nat.{div-add-mod, mod-eq_of_lt}
use native.Mathlib.Numerals.{towards_suc}

pow_seven : (i : ℕ) → 2 ^ (i + 7) ≡ 128 * 2 ^ i
pow_seven i = simp towards_suc (omega arith)

-- The lowest group of `x` and the rest, both shifted by `i`.
split_group : (x i : ℕ) → x * 2 ^ i ≡ x % 128 * 2 ^ i + x / 128 * 2 ^ (i + 7)
split_group x i = omega (
  arith,
  ap (λ (t : ℕ). t * 2 ^ i) (div-add-mod x 128),
  ap (λ (t : ℕ). x / 128 * t) (pow_seven i),
)

-- Adding the group `f` at shift `i` to a `v` below that shift, in a word where it fits.
add_group :
    (w i v f : ℕ) → v < 2 ^ i → v + f * 2 ^ i < 2 ^ w → bit_or v (f * 2 ^ i % 2 ^ w) ≡ v + f * 2 ^ i
add_group w i v f hv fits =
    let small : f * 2 ^ i < 2 ^ w = omega arith in rw (mod-eq_of_lt small) (bit_or_shifted i v f hv)

mul_mono : (a b c : ℕ) → a ≤ b → a * c ≤ b * c
mul_mono a b c h = grind arith

group_fits : (i v x : ℕ) → v < 2 ^ i → v + x % 128 * 2 ^ i < 2 ^ (i + 7)
group_fits i v x h = omega (arith, pow_seven i, mul_mono (x % 128) 127 (2 ^ i) (omega arith))

-- `x` is what the rest of the bytes encode, from the shift `i` on.
pub read_loop-write_loop :
    (n w i v x : ℕ) (rest : List ℕ)
    → x < 128 ^ suc n
    → v < 2 ^ i
    → v + x * 2 ^ i < 2 ^ w
    → read_loop w (suc n) i v (write_loop x x ++ rest) ≡ ok (v + x * 2 ^ i, rest)
unfolding read_loop
read_loop-write_loop zero w i v x rest hx hv fits =
    rw (write_loop-unroll x) (ground (arith, bit_and_low x, bit_and_top x, add_group w i v x))
read_loop-write_loop (suc n) w i v x rest hx hv fits = rw (write_loop-unroll x) (
    ground (
      arith,
      bit_and_low x,
      bit_and_top x,
      bit_and_low (x % 128 + 128),
      bit_and_top (x % 128 + 128),
      add_group w i v x,
      add_group w i v (x % 128),
      split_group x i,
      pow_seven i,
      group_fits i v x,
      read_loop-write_loop n w (i + 7) (v + x % 128 * 2 ^ i) (x / 128) rest,
    ))

-- Every uint32 that WriteVaruint32 writes is read back by Varuint32, which leaves what follows.
pub varuint32-write_varuint32 :
    (x : ℕ) (rest : List ℕ) → x < 2 ^ 32 → varuint32 (write_varuint32 x ++ rest) ≡ ok (x, rest)
unfolding varuint32 write_varuint32
varuint32-write_varuint32 x rest h = ground (arith, read_loop-write_loop 4 32 0 0 x rest)

-- Every uint64 that WriteVaruint64 writes is read back by Varuint64, which leaves what follows.
pub varuint64-write_varuint64 :
    (x : ℕ) (rest : List ℕ) → x < 2 ^ 64 → varuint64 (write_varuint64 x ++ rest) ≡ ok (x, rest)
unfolding varuint64 write_varuint64
varuint64-write_varuint64 x rest h = ground (arith, read_loop-write_loop 9 64 0 0 x rest)

pub unzigzag32-zigzag32 : (x : ℕ) → x < 2 ^ 32 → unzigzag32 (zigzag32 x) ≡ x
unfolding unzigzag32 zigzag32
unzigzag32-zigzag32 x h = ground arith

pub unzigzag64-zigzag64 : (x : ℕ) → x < 2 ^ 64 → unzigzag64 (zigzag64 x) ≡ x
unfolding unzigzag64 zigzag64
unzigzag64-zigzag64 x h = ground arith

pub zigzag32-lt : (x : ℕ) → zigzag32 x < 2 ^ 32
unfolding zigzag32
zigzag32-lt x = ground arith

pub zigzag64-lt : (x : ℕ) → zigzag64 x < 2 ^ 64
unfolding zigzag64
zigzag64-lt x = ground arith

-- Every int32, as its two's complement pattern, that WriteVarint32 writes is read back by
-- Varint32.
pub varint32-write_varint32 :
    (x : ℕ) (rest : List ℕ) → x < 2 ^ 32 → varint32 (write_varint32 x ++ rest) ≡ ok (x, rest)
unfolding varint32 write_varint32
varint32-write_varint32 x rest h =
    rw (varuint32-write_varuint32 (zigzag32 x) rest (zigzag32-lt x), unzigzag32-zigzag32 x h)

-- Every int64, as its two's complement pattern, that WriteVarint64 writes is read back by
-- Varint64.
pub varint64-write_varint64 :
    (x : ℕ) (rest : List ℕ) → x < 2 ^ 64 → varint64 (write_varint64 x ++ rest) ≡ ok (x, rest)
unfolding varint64 write_varint64
varint64-write_varint64 x rest h =
    rw (varuint64-write_varuint64 (zigzag64 x) rest (zigzag64-lt x), unzigzag64-zigzag64 x h)
