-- ===== src/Io.antt =====
-- minecraft/protocol/io.go: the `IO` interface, whose two implementations are the Reader and the
-- Writer, and the generic functions over it. A Go call `io.F(&x)` takes the value at the pointer and
-- returns the value that the pointer holds afterwards; a panic is an error.
pub mod Reader
pub mod Writer
pub mod Sim
pub mod Prims
pub mod Values
pub mod ShortReads
mod Runs
use gophertunnel.Prelude.{
  ℕ, zero, suc, ◌%◌, ◌^◌, Bool, true, false, Option, none, some, List, [], ◌∷◌, length,
  if◌then◌else◌,
}
use gophertunnel.Prelude.Results.{Result, ok, err}
use gophertunnel.Errors.{Error, unexpected_eof}

-- What a Reader still has to read, or a Writer has written, and the Reader's scratch array `buf`.
-- (The Writer fills its own `buf` before each use, so it has no effect.)
pub record Stream : Type 0 where
  pub bytes : List ℕ
  pub buf : List ℕ

abbrev pub M : Type 0 → Type 0
M A = Stream → Result Error (A × Stream)

infixl 5 ◌>>=◌ ◌>>◌
abbrev pub ◌>>=◌ : {A B : Type 0} → M A → (A → M B) → M B
◌>>=◌ m f s = elim (m s) [ ok (a, t) ↦ f a t | err e ↦ err e ]

abbrev pub ◌>>◌ : {B : Type 0} → M (Unit {0}) → M B → M B
m >> k = m >>= λ _. k

abbrev pub pure : {A : Type 0} → A → M A
pure a s = ok (a, s)

abbrev pub panic : {A : Type 0} → Error → M A
panic e s = err e

-- `if b { panic(e) }`
abbrev pub panic_if : Bool → Error → M (Unit {0})
panic_if true e s = err e
panic_if false e s = ok (tt, s)

-- A float32 or float64 is its bit pattern.
pub record Vec3 : Type 0 where
  pub x : ℕ
  pub y : ℕ
  pub z : ℕ

pub record Vec2 : Type 0 where
  pub x : ℕ
  pub y : ℕ

pub record BlockPos : Type 0 where
  pub x : ℕ
  pub y : ℕ
  pub z : ℕ

pub record ChunkPos : Type 0 where
  pub x : ℕ
  pub z : ℕ

pub record SubChunkPos : Type 0 where
  pub x : ℕ
  pub y : ℕ
  pub z : ℕ

-- `color.RGBA`: four bytes.
pub record Rgba : Type 0 where
  pub r : ℕ
  pub g : ℕ
  pub b : ℕ
  pub a : ℕ

-- `slice_length` is the type assertion `r.(sliceReader)`, which holds of a Reader alone.
pub record Io : Type 0 where
  pub uint8 : ℕ → M ℕ
  pub int8 : ℕ → M ℕ
  pub bool : Bool → M Bool
  pub uint16 : ℕ → M ℕ
  pub int16 : ℕ → M ℕ
  pub uint32 : ℕ → M ℕ
  pub int32 : ℕ → M ℕ
  pub be_int32 : ℕ → M ℕ
  pub uint64 : ℕ → M ℕ
  pub int64 : ℕ → M ℕ
  pub float32 : ℕ → M ℕ
  pub float64 : ℕ → M ℕ
  pub varint64 : ℕ → M ℕ
  pub varuint64 : ℕ → M ℕ
  pub varint32 : ℕ → M ℕ
  pub varuint32 : ℕ → M ℕ
  pub actor_runtime_id : ℕ → M ℕ
  pub actor_runtime_id_varint64 : ℕ → M ℕ
  pub actor_runtime_id_varuint32 : ℕ → M ℕ
  pub actor_unique_id : ℕ → M ℕ
  pub actor_unique_id_int64 : ℕ → M ℕ
  pub actor_unique_id_uint64 : ℕ → M ℕ
  pub actor_unique_id_varuint64 : ℕ → M ℕ
  pub string : List ℕ → M (List ℕ)
  pub string_utf : List ℕ → M (List ℕ)
  pub byte_slice : List ℕ → M (List ℕ)
  pub bytes : List ℕ → M (List ℕ)
  pub vec3 : Vec3 → M Vec3
  pub vec2 : Vec2 → M Vec2
  pub block_pos : BlockPos → M BlockPos
  pub chunk_pos : ChunkPos → M ChunkPos
  pub sub_chunk_pos : SubChunkPos → M SubChunkPos
  pub uuid : List ℕ → M (List ℕ)
  pub rgba : Rgba → M Rgba
  pub be_argb : Rgba → M Rgba
  pub slice_length : Option (ℕ → ℕ → M (Unit {0}))

-- `Optional[T]`
pub record Optional (A : Type 0) : Type 0 where
  pub set : Bool
  pub val : A

abbrev pub max_slice_length : ℕ
max_slice_length = 1024

abbrev pub replicate : {A : Type 0} → ℕ → A → List A
replicate zero a = []
replicate (suc n) a = a ∷ replicate n a

-- `for i := 0; i < l; i++ { f(&(*x)[i]) }`; an index past the end panics.
unfoldable pub each : {A : Type 0} → (A → M A) → ℕ → List A → M (List A)
each f zero xs = pure xs
each f (suc l) [] = panic unexpected_eof
each f (suc l) (x ∷ xs) = do x' ← f x; xs' ← each f l xs; pure (x' ∷ xs')

-- `FuncSliceOfLen`, and `SliceOfLen` with `f` the element's Marshal; `z` is the zero value that
-- `make` fills the slice with.
unfoldable pub func_slice_of_len : {A : Type 0} → Io → A → ℕ → List A → (A → M A) → M (List A)
unfolding each
func_slice_of_len io z l xs f = elim (io.slice_length) [
  | some check ↦ check l max_slice_length >>= λ _. each f l (replicate l z)
  | none ↦ each f l xs
]

-- `FuncSlice`, and `Slice` with `f` the element's Marshal.
unfoldable pub func_slice : {A : Type 0} → Io → A → List A → (A → M A) → M (List A)
unfolding func_slice_of_len
func_slice io z xs f = do
  count ← io.varuint32 (length xs % 2 ^ 32)
  func_slice_of_len io z count xs f

-- `FuncSliceUint32Length` and `SliceUint32Length`.
unfoldable pub func_slice_uint32_length : {A : Type 0} → Io → A → List A → (A → M A) → M (List A)
unfolding func_slice_of_len
func_slice_uint32_length io z xs f = do
  count ← io.uint32 (length xs % 2 ^ 32)
  func_slice_of_len io z count xs f

-- `SliceUint8Length`.
unfoldable pub slice_uint8_length : {A : Type 0} → Io → A → List A → (A → M A) → M (List A)
unfolding func_slice_of_len
slice_uint8_length io z xs f = do
  count ← io.uint8 (length xs % 2 ^ 8)
  func_slice_of_len io z count xs f

-- `OptionalFunc`, and `OptionalMarshaler` with `f` the value's Marshal.
unfoldable pub optional_func : {A : Type 0} → Io → Optional A → (A → M A) → M (Optional A)
optional_func io x f = do
  set ← io.bool x.set
  elim set [
    | true ↦ f x.val >>= λ val. pure (record { set = true; val = val })
    | false ↦ pure (record { set = false; val = x.val })
  ]
