-- ===== src/Bits.antt =====
-- Masks and shifted fields of machine words as arithmetic: `b & 0x7f`, `b & 0x80`, `b | 0x80` on a
-- byte, and `v | f << k` for a field above the bits of `v`.
use Prim.Native.Nat.{digits, differ, bit_xor, bit_or-bitwise, bit_and-bitwise, bit_xor-bitwise}
use gophertunnel.Prelude.{
  ℕ, zero, suc, ◌+◌, ◌-◌, ◌*◌, ◌/◌, ◌%◌, ◌^◌, ◌≤◌, ◌<◌, min, max, bit_and, bit_or, ◌≡◌, refl, ◌∙◌,
  sym, ap, Bool, true, ◌&&◌, arith, ◌==◌, ==_iff,
}
use native.Mathlib.Nat.{pow-suc, one-le-pow, div-div-eq-div-mul, div-add-mod', mul_comm, mul_assoc}

-- Whether a test holds of the first numbers, by evaluation, and what that shows of each.
holds_below : (ℕ → Bool) → ℕ → Bool
holds_below test zero = true
holds_below test (suc bound) = holds_below test bound && test bound

holds_at :
    (test : ℕ → Bool) (v bound : ℕ) → v < bound → holds_below test bound ≡ true → test v ≡ true
unfolding holds_below
holds_at test v (suc bound) small all = ground (arith, holds_at test v bound)
holds_at test v zero small all = absurd (omega arith)

low_table : holds_below (λ x. bit_and x 0x7f == x % 128) 256 ≡ true
unfolding holds_below
low_table = refl

top_table : holds_below (λ x. bit_and x 0x80 == x / 128 * 128) 256 ≡ true
unfolding holds_below
top_table = refl

mark_table : holds_below (λ x. bit_or x 0x80 == x % 128 + 128) 256 ≡ true
unfolding holds_below
mark_table = refl

pub bit_and_low : (b : ℕ) → b < 256 → bit_and b 0x7f ≡ b % 128
bit_and_low b h = (==_iff _ _).0 (holds_at _ b 256 h low_table)

pub bit_and_top : (b : ℕ) → b < 256 → bit_and b 0x80 ≡ b / 128 * 128
bit_and_top b h = (==_iff _ _).0 (holds_at _ b 256 h top_table)

pub bit_or_top : (b : ℕ) → b < 256 → bit_or b 0x80 ≡ b % 128 + 128
bit_or_top b h = (==_iff _ _).0 (holds_at _ b 256 h mark_table)

-- The digit recursion does not depend on its count once that is large enough.
module _ (z : ℕ → ℕ) (f : ℕ → ℕ → ℕ) where
  no_digits : (count b : ℕ) → digits z f count 0 b ≡ z b
  no_digits zero b = refl
  no_digits (suc count) b = refl

  digits_count :
      (a b count count' : ℕ) → a ≤ count → a ≤ count' → digits z f count a b ≡ digits z f count' a b
  digits_count zero b count count' h h' = no_digits count b ∙ sym (no_digits count' b)
  digits_count (suc a) b (suc count) (suc count') h h' =
      ap (λ (high : ℕ). high * 2 + f (suc a % 2) (b % 2))
        (digits_count (suc a / 2) (b / 2) count count' (omega arith) (omega arith))
  digits_count (suc a) b zero count' h h' = absurd (omega arith)
  digits_count (suc a) b (suc count) zero h h' = absurd (omega arith)

  -- The lowest digit, where the first number has one.
  lowest :
      (a b : ℕ)
      → digits z f (suc a) (suc a) b
        ≡ digits z f (suc a / 2) (suc a / 2) (b / 2) * 2 + f (suc a % 2) (b % 2)
  lowest a b =
      ap (λ (high : ℕ). high * 2 + f (suc a % 2) (b % 2))
        (digits_count (suc a / 2) (b / 2) a (suc a / 2) (omega arith) (omega arith))

or_digit : (a b : ℕ) → bit_or a b ≡ bit_or (a / 2) (b / 2) * 2 + max (a % 2) (b % 2)
or_digit (suc a) b =
    bit_or-bitwise (suc a) b
    ∙ lowest (λ y. y) max a b
    ∙ ap (λ (high : ℕ). high * 2 + max (suc a % 2) (b % 2))
        (sym (bit_or-bitwise (suc a / 2) (b / 2)))
or_digit zero b = omega (arith, bit_or-bitwise 0 b, bit_or-bitwise 0 (b / 2))

and_digit : (a b : ℕ) → bit_and a b ≡ bit_and (a / 2) (b / 2) * 2 + min (a % 2) (b % 2)
and_digit (suc a) b =
    bit_and-bitwise (suc a) b
    ∙ lowest (λ y. zero) min a b
    ∙ ap (λ (high : ℕ). high * 2 + min (suc a % 2) (b % 2))
        (sym (bit_and-bitwise (suc a / 2) (b / 2)))
and_digit zero b = omega (arith, bit_and-bitwise 0 b, bit_and-bitwise 0 (b / 2))

and_nothing : (bound x : ℕ) → x ≤ bound → bit_and x 0 ≡ 0
and_nothing (suc bound) x small =
    omega (arith, and_digit x 0, and_nothing bound (x / 2) (omega arith))
and_nothing zero x small = let none_left : x ≡ 0 = omega arith in rw none_left refl

halves_quotient : (k x : ℕ) → x / 2 ^ suc k * 2 ^ suc k ≡ x / 2 / 2 ^ k * 2 ^ k * 2
halves_quotient k x =
    rw (div-div-eq-div-mul x 2 (2 ^ k), pow-suc 2 k, mul_comm 2 (2 ^ k))
      (sym (mul_assoc (x / (2 ^ k * 2)) (2 ^ k) 2))

halves : (k x : ℕ) → x % 2 ^ suc k ≡ x / 2 % 2 ^ k * 2 + x % 2
halves k x =
    omega (arith, halves_quotient k x, div-add-mod' x (2 ^ suc k), div-add-mod' (x / 2) (2 ^ k))

-- `x & (1 << k - 1)` is the remainder by `1 << k`.
pub bit_and_mask : (k x : ℕ) → bit_and x (2 ^ k - 1) ≡ x % 2 ^ k
bit_and_mask zero x = omega (arith, and_nothing x x (omega arith))
bit_and_mask (suc k) x = ground (
  arith,
  pow-suc 2 k,
  one-le-pow k 2,
  and_digit x (2 ^ suc k - 1),
  bit_and_mask k (x / 2),
  halves k x,
)

-- `v | f << k` is a sum where `v` fits `k` bits.
pub bit_or_shifted : (k v f : ℕ) → v < 2 ^ k → bit_or v (f * 2 ^ k) ≡ v + f * 2 ^ k
bit_or_shifted zero v f h =
    let e : v ≡ 0 = omega arith in rw e (omega (arith, bit_or-bitwise 0 (f * 1)))
bit_or_shifted (suc k) v f h = ground (
  arith,
  pow-suc 2 k,
  ap (λ (t : ℕ). f * t) (pow-suc 2 k),
  or_digit v (f * 2 ^ suc k),
  bit_or_shifted k (v / 2) f (omega (arith, pow-suc 2 k)),
)

differ_zero : (y : ℕ) → differ 0 y ≡ y
differ_zero y = refl

differ_undo : (x y : ℕ) → x < 2 → y < 2 → (differ x y < 2) × (differ (differ x y) y ≡ x)
differ_undo zero zero p q = (omega arith, refl)
differ_undo zero (suc zero) p q = (omega arith, refl)
differ_undo (suc zero) zero p q = (omega arith, refl)
differ_undo (suc zero) (suc zero) p q = (omega arith, refl)
differ_undo (suc (suc x)) y p q = absurd (omega arith)
differ_undo zero (suc (suc y)) p q = absurd (omega arith)
differ_undo (suc zero) (suc (suc y)) p q = absurd (omega arith)

xor_digit : (a b : ℕ) → bit_xor a b ≡ bit_xor (a / 2) (b / 2) * 2 + differ (a % 2) (b % 2)
xor_digit zero b =
    omega (arith, bit_xor-bitwise 0 b, bit_xor-bitwise 0 (b / 2), differ_zero (b % 2))
xor_digit (suc a) b =
    bit_xor-bitwise (suc a) b
    ∙ lowest (λ y. y) differ a b
    ∙ ap (λ (high : ℕ). high * 2 + differ (suc a % 2) (b % 2))
        (sym (bit_xor-bitwise (suc a / 2) (b / 2)))

xor_halves :
    (a b : ℕ)
    → (bit_xor a b / 2 ≡ bit_xor (a / 2) (b / 2)) × (bit_xor a b % 2 ≡ differ (a % 2) (b % 2))
xor_halves a b =
    let small = (differ_undo (a % 2) (b % 2) (omega arith) (omega arith)).0 in
    (omega (arith, small, xor_digit a b), omega (arith, small, xor_digit a b))

xor_undo_below : (n a b : ℕ) → a ≤ n → b ≤ n → bit_xor (bit_xor a b) b ≡ a
xor_undo_below zero a b p q =
    let e : a ≡ 0 = omega arith in let e' : b ≡ 0 = omega arith in rw (e, e') refl
xor_undo_below (suc n) a b p q =
    let (high, low) = xor_halves a b in
    let again = xor_digit (bit_xor a b) b in
    let rest = xor_undo_below n (a / 2) (b / 2) (omega arith) (omega arith) in
    let last = (differ_undo (a % 2) (b % 2) (omega arith) (omega arith)).1 in
    again ∙ rw (high, low, rest, last) (omega arith)

-- `a ^ b ^ b` is `a`.
pub bit_xor_undo : (a b : ℕ) → bit_xor (bit_xor a b) b ≡ a
bit_xor_undo a b = xor_undo_below (a + b) a b (omega arith) (omega arith)
