-- ===== src/Varint/Runs.antt =====
-- Concrete runs of the variable-length integers, and the theorems at concrete inputs.
use gophertunnel.Prelude.{ℕ, ◌≤◌, ◌<◌, List, [], ◌∷◌, ◌++◌, length, All, ◌≡◌, refl, arith}
use gophertunnel.Prelude.Results.{ok, err}
use gophertunnel.Errors.{varint_overflow}
use gophertunnel.Varint.{
  write_loop, read_loop, write_varuint32, write_varuint64, varuint32, varuint64, zigzag32,
  write_varint32, write_varint64, varint32, varint64,
}
use gophertunnel.Varint.Write.{write_varuint32_shape, write_varuint64_shape}
use gophertunnel.Varint.Read.{read_loop_takes, read_loop_overflow}
use gophertunnel.Varint.RoundTrip.{
  varuint32-write_varuint32, varuint64-write_varuint64, varint32-write_varint32,
  varint64-write_varint64,
}

write_300 : write_varuint32 300 ≡ 0xac ∷ 0x02 ∷ []
unfolding write_varuint32 write_loop
write_300 = refl

zigzag_minus_two : write_varint32 0xffff_fffe ≡ 3 ∷ []
unfolding write_varint32 write_varuint32 write_loop zigzag32
zigzag_minus_two = refl

-- The bits of a fifth byte that do not fit an uint32 are dropped.
fifth_byte_cut : varuint32 (0xff ∷ 0xff ∷ 0xff ∷ 0xff ∷ 0x7f ∷ []) ≡ ok (0xffff_ffff, [])
unfolding varuint32 read_loop
fifth_byte_cut = refl

varuint32-write_varuint32_example : varuint32 (write_varuint32 300 ++ 7 ∷ []) ≡ ok (300, 7 ∷ [])
varuint32-write_varuint32_example = varuint32-write_varuint32 300 (7 ∷ []) (omega arith)

varuint64-write_varuint64_example :
    varuint64 (write_varuint64 0xffff_ffff_ffff_ffff ++ 7 ∷ []) ≡ ok (0xffff_ffff_ffff_ffff, 7 ∷ [])
varuint64-write_varuint64_example =
    varuint64-write_varuint64 0xffff_ffff_ffff_ffff (7 ∷ []) (omega arith)

varint32-write_varint32_example : varint32 (write_varint32 0xffff_fffe ++ []) ≡ ok (0xffff_fffe, [])
varint32-write_varint32_example = varint32-write_varint32 0xffff_fffe [] (omega arith)

varint64-write_varint64_example :
    varint64 (write_varint64 0x8000_0000_0000_0000 ++ []) ≡ ok (0x8000_0000_0000_0000, [])
varint64-write_varint64_example = varint64-write_varint64 0x8000_0000_0000_0000 [] (omega arith)

write_varuint32_shape_example :
    (1 ≤ length (write_varuint32 300))
    × (length (write_varuint32 300) ≤ 5)
    × All (λ b. b < 256) (write_varuint32 300)
write_varuint32_shape_example = write_varuint32_shape 300 (omega arith)

write_varuint64_shape_example :
    (1 ≤ length (write_varuint64 300))
    × (length (write_varuint64 300) ≤ 10)
    × All (λ b. b < 256) (write_varuint64 300)
write_varuint64_shape_example = write_varuint64_shape 300 (omega arith)

read_300 : read_loop 32 5 0 0 (0xac ∷ 0x02 ∷ 9 ∷ []) ≡ ok (300, 9 ∷ [])
unfolding read_loop
read_300 = refl

read_loop_takes_example :
    (front : List ℕ) × ((0xac ∷ 0x02 ∷ 9 ∷ []) ≡ front ++ 9 ∷ [])
    × (1 ≤ length front)
    × (length front ≤ 5)
read_loop_takes_example = read_loop_takes 5 32 0 0 (0xac ∷ 0x02 ∷ 9 ∷ []) 300 (9 ∷ []) read_300

read_loop_overflow_example :
    read_loop 32 5 0 0 (0x80 ∷ 0xff ∷ 0x80 ∷ 0x80 ∷ 0xff ∷ 1 ∷ []) ≡ err varint_overflow
read_loop_overflow_example =
    read_loop_overflow (0x80 ∷ 0xff ∷ 0x80 ∷ 0x80 ∷ 0xff ∷ []) 32 0 0 (1 ∷ [])
      (refl, (refl, (refl, (refl, (refl, tt)))))
