-- ===== src/Varint.antt =====
-- minecraft/protocol/varint.go: integers in groups of seven bits, lowest first, with the top bit set
-- on every byte but the last. A word of `w` bits is a number below 2 ^ w; an int32 or int64 is the
-- number of its two's complement pattern. A byte source is the list of the bytes that are left.
pub mod Write
pub mod Read
pub mod RoundTrip
mod Runs
use gophertunnel.Prelude.{
  ℕ, zero, suc, ◌+◌, ◌-◌, ◌*◌, ◌/◌, ◌%◌, ◌^◌, bit_and, bit_or, List, [], ◌∷◌, ltb, ◌==◌,
  if◌then◌else◌,
}
use gophertunnel.Prelude.Results.{Result, ok, err, ◌>>=◌}
use gophertunnel.Errors.{Error, eof, varint_overflow}

-- `for x >= 0x80 { WriteByte(byte(x) | 0x80); x >>= 7 }; WriteByte(byte(x))` with a bound on the
-- rounds. Each round makes `x` smaller, so `x` rounds are enough.
unfoldable pub write_loop : ℕ → ℕ → List ℕ
write_loop zero x = (x % 256) ∷ []
write_loop (suc rounds) x =
    let rest = write_loop rounds (x / 128) in
    if ltb x 0x80 then (x % 256) ∷ [] else bit_or (x % 256) 0x80 ∷ rest

unfoldable pub write_varuint32 : ℕ → List ℕ
unfolding write_loop
write_varuint32 x = write_loop x x

unfoldable pub write_varuint64 : ℕ → List ℕ
unfolding write_loop
write_varuint64 x = write_loop x x

-- `for i := 0; i < 7 * rounds; i += 7` of the readers, from the shift `i` on.
unfoldable pub read_loop : (w rounds i v : ℕ) → List ℕ → Result Error (ℕ × List ℕ)
read_loop w zero i v src = err varint_overflow
read_loop w (suc rounds) i v [] = err eof
read_loop w (suc rounds) i v (b ∷ rest) =
    let v' = bit_or v (bit_and b 0x7f * 2 ^ i % 2 ^ w) in
    let more = read_loop w rounds (i + 7) v' rest in
    if bit_and b 0x80 == 0 then ok (v', rest) else more

unfoldable pub varuint32 : List ℕ → Result Error (ℕ × List ℕ)
unfolding read_loop
varuint32 src = read_loop 32 5 0 0 src

unfoldable pub varuint64 : List ℕ → Result Error (ℕ × List ℕ)
unfolding read_loop
varuint64 src = read_loop 64 10 0 0 src

-- `ux := uint32(x) << 1; if x < 0 { ux = ^ux }`
unfoldable pub zigzag32 : ℕ → ℕ
zigzag32 x = let ux = 2 * x % 2 ^ 32 in if ltb x (2 ^ 31) then ux else 2 ^ 32 - 1 - ux

unfoldable pub zigzag64 : ℕ → ℕ
zigzag64 x = let ux = 2 * x % 2 ^ 64 in if ltb x (2 ^ 63) then ux else 2 ^ 64 - 1 - ux

-- `x = int32(ux >> 1); if ux&1 != 0 { x = ^x }`
unfoldable pub unzigzag32 : ℕ → ℕ
unzigzag32 ux = if ux % 2 == 0 then ux / 2 else 2 ^ 32 - 1 - ux / 2

unfoldable pub unzigzag64 : ℕ → ℕ
unzigzag64 ux = if ux % 2 == 0 then ux / 2 else 2 ^ 64 - 1 - ux / 2

unfoldable pub write_varint32 : ℕ → List ℕ
unfolding write_varuint32 zigzag32
write_varint32 x = write_varuint32 (zigzag32 x)

unfoldable pub write_varint64 : ℕ → List ℕ
unfolding write_varuint64 zigzag64
write_varint64 x = write_varuint64 (zigzag64 x)

unfoldable pub varint32 : List ℕ → Result Error (ℕ × List ℕ)
unfolding varuint32 unzigzag32
varint32 src = do (ux, rest) ← varuint32 src; ok (unzigzag32 ux, rest)

unfoldable pub varint64 : List ℕ → Result Error (ℕ × List ℕ)
unfolding varuint64 unzigzag64
varint64 src = do (ux, rest) ← varuint64 src; ok (unzigzag64 ux, rest)
