-- ===== src/Io/Values.antt =====
-- The generic functions of io.go, UUIDs and colours: read back as they were written.
use gophertunnel.Prelude.{
  ℕ, ◌+◌, ◌*◌, ◌^◌, ◌≤◌, ◌<◌, bit_or, List, [], ◌∷◌, ◌++◌, ◌≡◌, refl, arith, length, length-append,
  Bool, true, false, reverse, take, drop, take-append, drop-append, length-reverse, length-take,
  length-drop, take-append-drop, All, le→not-ltb,
}
use gophertunnel.Bits.{bit_or_shifted}
use gophertunnel.Io.{
  M, ◌>>=◌, pure, Optional, Rgba, Vec3, Vec2, BlockPos, ChunkPos, SubChunkPos, replicate, each,
  func_slice_of_len, func_slice, func_slice_uint32_length, optional_func, max_slice_length,
}
use gophertunnel.Io.Sim.{Sim, step, step_both, weaken, done}
use gophertunnel.Io.Reader
use gophertunnel.Io.Reader.{reader}
use gophertunnel.Io.Writer
use gophertunnel.Io.Writer.{writer, emit}
use gophertunnel.Io.Prims.{varuint32-Sim, uint32-Sim, bool-Sim, be_int32-Sim, read_full_front}
use native.Mathlib.Nat.{mod-eq_of_lt}
use mathlib.Core.List.{reverse-append, reverse-reverse}

abbrev pub IsU16 : ℕ → Type 0
IsU16 x = x < 2 ^ 16

abbrev pub IsU32 : ℕ → Type 0
IsU32 x = x < 2 ^ 32

abbrev pub IsU64 : ℕ → Type 0
IsU64 x = x < 2 ^ 64

-- Strings and byte slices as long as the Reader takes.
abbrev pub IsText : List ℕ → Type 0
IsText x = length x < 2 ^ 31

abbrev pub IsVec3 : Vec3 → Type 0
IsVec3 v = (v.x < 2 ^ 32) × (v.y < 2 ^ 32) × (v.z < 2 ^ 32)

abbrev pub IsVec2 : Vec2 → Type 0
IsVec2 v = (v.x < 2 ^ 32) × (v.y < 2 ^ 32)

abbrev pub IsBlockPos : BlockPos → Type 0
IsBlockPos p = (p.x < 2 ^ 32) × (p.y < 2 ^ 32) × (p.z < 2 ^ 32)

abbrev pub IsChunkPos : ChunkPos → Type 0
IsChunkPos p = (p.x < 2 ^ 32) × (p.z < 2 ^ 32)

abbrev pub IsSubChunkPos : SubChunkPos → Type 0
IsSubChunkPos p = (p.x < 2 ^ 32) × (p.y < 2 ^ 32) × (p.z < 2 ^ 32)

-- As many elements as a Reader with limits takes, each of them valid.
abbrev pub IsSlice : {A : Type 0} → (A → Type 0) → List A → Type 0
IsSlice P xs = (length xs ≤ max_slice_length) × All P xs

-- A valid value where one is set, and the zero value that a fresh packet holds where none is.
abbrev pub IsOptional : {A : Type 0} → (A → Type 0) → A → Optional A → Type 0
IsOptional P z x = elim (x.set) [ true ↦ P x.val | false ↦ x.val ≡ z ]

-- The check of a length prefix passes, since each element takes a byte at least.
check-Sim :
    {B : Type 0} (limits : Bool) (l : ℕ) {w : M B} (g : M B) {b : B}
    → l ≤ max_slice_length
    → Sim l w g b
    → Sim l w (Reader.slice_length limits l max_slice_length >>= λ _. g) b
unfolding Reader.slice_length
check-Sim limits l g h p = record {
  emitted = p.emitted;
  enough = p.enough;
  writes = p.writes;
  reads = λ rest buf.
      let long : l ≤ length (p.emitted ++ rest) =
        omega (arith, p.enough, length-append p.emitted rest) in
      let (last, e) = p.reads rest buf in
      (last, rw (◌>>=◌, le→not-ltb max_slice_length l h, le→not-ltb _ l long) e);
}

module _ {A : Type 0} (P : A → Type 0) (z : A) (fw fr : A → M A)
    (sim : (x : A) → P x → Sim 1 (fw x) (fr z) x) where
  each-Sim :
      (xs : List A)
      → All P xs
      → Sim (length xs) (each fw (length xs) xs) (each fr (length xs) (replicate (length xs) z)) xs
  unfolding each
  each-Sim [] h = done
  each-Sim (x ∷ xs) (h, hs) =
      weaken (omega arith) (step_both _ _ (sim x h) (step _ _ (each-Sim xs hs) done))

  -- A slice of at most 1024 elements, behind a length of each kind.
  pub func_slice_of_len-Sim :
      (limits : Bool) (xs xs' : List A)
      → IsSlice P xs
      → Sim
          (length xs)
          (func_slice_of_len writer z (length xs) xs fw)
          (func_slice_of_len (reader limits) z (length xs) xs' fr)
          xs
  unfolding func_slice_of_len
  func_slice_of_len-Sim limits xs xs' (h, hs) = check-Sim limits (length xs) _ h (each-Sim xs hs)

  -- FuncSlice writes and reads back a slice of up to 1024 elements, with or without limits, if the
  -- element function does so for each element and writes at least a byte.
  pub func_slice-Sim :
      (limits : Bool) (xs xs' : List A)
      → IsSlice P xs
      → Sim 1 (func_slice writer z xs fw) (func_slice (reader limits) z xs' fr) xs
  unfolding func_slice
  func_slice-Sim limits xs xs' h =
      let small : length xs < 2 ^ 32 = omega (arith, h.0) in
      rw (mod-eq_of_lt small)
        (step _ _ (varuint32-Sim (length xs) _ small) (func_slice_of_len-Sim limits xs xs' h))

  -- FuncSliceUint32Length writes and reads back a slice of up to 1024 elements, with or without
  -- limits, if the element function does so for each element and writes at least a byte.
  pub func_slice_uint32_length-Sim :
      (limits : Bool) (xs xs' : List A)
      → IsSlice P xs
      → Sim 1
          (func_slice_uint32_length writer z xs fw)
          (func_slice_uint32_length (reader limits) z xs' fr)
          xs
  unfolding func_slice_uint32_length
  func_slice_uint32_length-Sim limits xs xs' h =
      let small : length xs < 2 ^ 32 = omega (arith, h.0) in
      rw (mod-eq_of_lt small)
        (step _ _ (uint32-Sim (length xs) _ small) (func_slice_of_len-Sim limits xs xs' h))

  optional-Sim :
      (limits set : Bool) (val : A) (s' : Bool)
      → IsOptional P z (record { set = set; val = val })
      → Sim 1
          (optional_func writer (record { set = set; val = val }) fw)
          (optional_func (reader limits) (record { set = s'; val = z }) fr)
          (record { set = set; val = val })
  unfolding optional_func
  optional-Sim limits true val s' h = step _ _ (bool-Sim true s') (step _ _ (sim val h) done)
  optional-Sim limits false val s' h = step {k = 0} _ _ (bool-Sim false s') (rw h done)

  -- OptionalFunc writes and reads back, into a fresh Optional, an optional value that is set and
  -- valid, or that is not set and zero, if the value's function does so and writes at least a
  -- byte.
  pub optional_func-Sim :
      (limits : Bool) (x : Optional A) (s' : Bool)
      → IsOptional P z x
      → Sim 1
          (optional_func writer x fw)
          (optional_func (reader limits) (record { set = s'; val = z }) fr)
          x
  optional_func-Sim limits x s' h = optional-Sim limits x.set x.val s' h

-- Four bytes packed into a word, and the word taken apart.
pack_bytes :
    (a b c d : ℕ)
    → a < 256
    → b < 256
    → c < 256
    → bit_or (bit_or (bit_or a (b * 2 ^ 8)) (c * 2 ^ 16)) (d * 2 ^ 24)
      ≡ a + b * 2 ^ 8 + c * 2 ^ 16 + d * 2 ^ 24
pack_bytes a b c d ha hb hc =
    rw (bit_or_shifted 8 a b ha, bit_or_shifted 16 (a + b * 2 ^ 8) c (omega arith))
      (bit_or_shifted 24 (a + b * 2 ^ 8 + c * 2 ^ 16) d (omega arith))

abbrev pub IsRgba : Rgba → Type 0
IsRgba x = (x.r < 256) × (x.g < 256) × (x.b < 256) × (x.a < 256)

-- Two reads that differ by a function of the value.
pub map-Sim :
    {A B : Type 0} {k : ℕ} {w r : M A} {a : A} (f : A → B) (b : B)
    → f a ≡ b
    → Sim k w r a
    → Sim k (w >>= λ _. pure b) (r >>= λ v. pure (f v)) b
map-Sim f b e p = step {k = 0} _ _ p (rw e done)

-- A colour of four bytes, packed into a uint32 by RGBA, is read back as it was written.
pub rgba-Sim : (x x' : Rgba) → IsRgba x → Sim 1 (Writer.rgba x) (Reader.rgba x') x
unfolding Writer.rgba Reader.rgba
rgba-Sim x x' (hr, hg, hb, ha) =
    rw (pack_bytes x.r x.g x.b x.a hr hg hb)
      (map-Sim _ x (ground arith) (uint32-Sim _ _ (omega arith)))

-- A colour of four bytes, packed into a big endian int32 by BEARGB, is read back as it was
-- written.
pub be_argb-Sim : (x x' : Rgba) → IsRgba x → Sim 1 (Writer.be_argb x) (Reader.be_argb x') x
unfolding Writer.be_argb Reader.be_argb
be_argb-Sim x x' (hr, hg, hb, ha) =
    rw (pack_bytes x.a x.r x.g x.b ha hr hg)
      (map-Sim _ x (ground arith) (be_int32-Sim _ _ (omega arith)))

abbrev pub IsUuid : List ℕ → Type 0
IsUuid x = length x ≡ 16

uuid_halves :
    (x : List ℕ)
    → IsUuid x
    → reverse (take 8 (reverse (drop 8 x ++ take 8 x)))
        ++ reverse (drop 8 (reverse (drop 8 x ++ take 8 x)))
      ≡ x
uuid_halves x h =
    let front : length (reverse (take 8 x)) ≡ 8 =
      omega (arith, h, length-reverse (take 8 x), length-take 8 x) in
    rw
      (
        reverse-append (drop 8 x) (take 8 x),
        take-append 8 (reverse (take 8 x)) (reverse (drop 8 x)) front,
        drop-append 8 (reverse (take 8 x)) (reverse (drop 8 x)) front,
        reverse-reverse (take 8 x),
        reverse-reverse (drop 8 x),
      )
      (take-append-drop 8 x)

-- A UUID of 16 bytes, whose halves are reversed on the wire, is read back as it was written.
pub uuid-Sim : (x x' : List ℕ) → IsUuid x → Sim 1 (Writer.uuid x) (Reader.uuid x') x
unfolding Writer.uuid Reader.uuid
uuid-Sim x x' h = record {
  emitted = reverse (drop 8 x ++ take 8 x);
  enough = omega (arith, size);
  writes = λ s. refl;
  reads = λ rest buf. (
    buf,
    rw (◌>>=◌, read_full_front 16 (reverse (drop 8 x ++ take 8 x)) rest buf size, uuid_halves x h),
  );
}
  where
    size : length (reverse (drop 8 x ++ take 8 x)) ≡ 16
    size = omega (
      arith,
      length-reverse (drop 8 x ++ take 8 x),
      length-append (drop 8 x) (take 8 x),
      length-drop 8 x,
      length-take 8 x,
    )
