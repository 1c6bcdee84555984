-- ===== src/Io/Writer.antt =====
-- minecraft/protocol/writer.go and writer_little_endian.go: the Writer over a `bytes.Buffer`, whose
-- writes do not fail.
use gophertunnel.Prelude.{
  ℕ, zero, suc, ◌*◌, ◌/◌, ◌%◌, ◌^◌, bit_or, Bool, none, List, [], ◌∷◌, ◌++◌, reverse, if◌then◌else◌,
  length, take, drop,
}
use gophertunnel.Prelude.Results.{ok}
use gophertunnel.Varint
use gophertunnel.Io.{M, ◌>>=◌, pure, Io, Vec3, Vec2, BlockPos, ChunkPos, SubChunkPos, Rgba}

-- The `n` lowest bytes of a number, lowest first: `binary.LittleEndian`.
unfoldable pub le_put : ℕ → ℕ → List ℕ
le_put zero x = []
le_put (suc n) x = (x % 256) ∷ le_put n (x / 256)

-- `w.w.Write(bs)`, after which the value at the pointer is still `a`.
abbrev pub emit : {A : Type 0} → List ℕ → A → M A
emit bs a s = ok (a, record s { bytes = s.bytes ++ bs })

unfoldable pub uint8 : ℕ → M ℕ
uint8 x = emit (x ∷ []) x

unfoldable pub int8 : ℕ → M ℕ
int8 x = uint8 x

unfoldable pub bool : Bool → M Bool
bool x = emit ((if x then 1 else 0) ∷ []) x

unfoldable pub uint16 : ℕ → M ℕ
uint16 x = emit (le_put 2 x) x

unfoldable pub int16 : ℕ → M ℕ
int16 x = uint16 x

unfoldable pub uint32 : ℕ → M ℕ
uint32 x = emit (le_put 4 x) x

unfoldable pub int32 : ℕ → M ℕ
int32 x = uint32 x

unfoldable pub be_int32 : ℕ → M ℕ
be_int32 x = emit (reverse (le_put 4 x)) x

unfoldable pub uint64 : ℕ → M ℕ
uint64 x = emit (le_put 8 x) x

unfoldable pub int64 : ℕ → M ℕ
int64 x = uint64 x

unfoldable pub float32 : ℕ → M ℕ
float32 x = uint32 x

unfoldable pub float64 : ℕ → M ℕ
float64 x = uint64 x

unfoldable pub varint64 : ℕ → M ℕ
varint64 x = emit (Varint.write_varint64 x) x

unfoldable pub varuint64 : ℕ → M ℕ
varuint64 x = emit (Varint.write_varuint64 x) x

unfoldable pub varint32 : ℕ → M ℕ
varint32 x = emit (Varint.write_varint32 x) x

unfoldable pub varuint32 : ℕ → M ℕ
varuint32 x = emit (Varint.write_varuint32 x) x

unfoldable pub string : List ℕ → M (List ℕ)
string x = do _ ← varuint32 (length x % 2 ^ 32); emit x x

unfoldable pub byte_slice : List ℕ → M (List ℕ)
byte_slice x = do _ ← varuint32 (length x % 2 ^ 32); emit x x

unfoldable pub string_utf : List ℕ → M (List ℕ)
string_utf x = do _ ← int16 (length x % 2 ^ 16); emit x x

unfoldable pub bytes : List ℕ → M (List ℕ)
bytes x = emit x x

unfoldable pub vec3 : Vec3 → M Vec3
vec3 v = do x ← float32 v.x; y ← float32 v.y; z ← float32 v.z; pure (record { x = x; y = y; z = z })

unfoldable pub vec2 : Vec2 → M Vec2
vec2 v = do x ← float32 v.x; y ← float32 v.y; pure (record { x = x; y = y })

unfoldable pub block_pos : BlockPos → M BlockPos
block_pos p = do
  x ← varint32 p.x
  y ← varint32 p.y
  z ← varint32 p.z
  pure (record { x = x; y = y; z = z })

unfoldable pub chunk_pos : ChunkPos → M ChunkPos
chunk_pos p = do x ← varint32 p.x; z ← varint32 p.z; pure (record { x = x; z = z })

unfoldable pub sub_chunk_pos : SubChunkPos → M SubChunkPos
sub_chunk_pos p = do
  x ← int32 p.x
  y ← int32 p.y
  z ← int32 p.z
  pure (record { x = x; y = y; z = z })

-- `append(x[8:], x[:8]...)` in reverse.
unfoldable pub uuid : List ℕ → M (List ℕ)
uuid x = emit (reverse (drop 8 x ++ take 8 x)) x

unfoldable pub rgba : Rgba → M Rgba
rgba x = do
  _ ← uint32 (bit_or (bit_or (bit_or x.r (x.g * 2 ^ 8)) (x.b * 2 ^ 16)) (x.a * 2 ^ 24))
  pure x

unfoldable pub be_argb : Rgba → M Rgba
be_argb x = do
  _ ← be_int32 (bit_or (bit_or (bit_or x.a (x.r * 2 ^ 8)) (x.g * 2 ^ 16)) (x.b * 2 ^ 24))
  pure x

-- A Writer as an `IO`. It is no `sliceReader`. The `Actor…` methods are other names.
abbrev pub writer : Io
writer = record {
  uint8 = uint8;
  int8 = int8;
  bool = bool;
  uint16 = uint16;
  int16 = int16;
  uint32 = uint32;
  int32 = int32;
  be_int32 = be_int32;
  uint64 = uint64;
  int64 = int64;
  float32 = float32;
  float64 = float64;
  varint64 = varint64;
  varuint64 = varuint64;
  varint32 = varint32;
  varuint32 = varuint32;
  actor_runtime_id = varuint64;
  actor_runtime_id_varint64 = varint64;
  actor_runtime_id_varuint32 = varuint32;
  actor_unique_id = varint64;
  actor_unique_id_int64 = int64;
  actor_unique_id_uint64 = uint64;
  actor_unique_id_varuint64 = varuint64;
  string = string;
  string_utf = string_utf;
  byte_slice = byte_slice;
  bytes = bytes;
  vec3 = vec3;
  vec2 = vec2;
  block_pos = block_pos;
  chunk_pos = chunk_pos;
  sub_chunk_pos = sub_chunk_pos;
  uuid = uuid;
  rgba = rgba;
  be_argb = be_argb;
  slice_length = none;
}
