-- ===== src/Io/Reader.antt =====
-- minecraft/protocol/reader.go and reader_little_endian.go: the Reader over a `bytes.Buffer`, the
-- source that `packetData.decode` gives it. (`Len` of such a source is what is left of it.)
use gophertunnel.Prelude.{
  ℕ, ◌+◌, ◌-◌, ◌*◌, ◌/◌, ◌%◌, ◌^◌, Bool, ◌&&◌, not, some, List, [], ◌∷◌, ◌++◌, reverse, ltb, leb,
  ◌==◌, if◌then◌else◌, length, take, drop,
}
use gophertunnel.Prelude.Results.{Result, ok, err}
use gophertunnel.Errors.{
  Error, eof, unexpected_eof, string_too_long, negative_length, exceeds_remaining, slice_too_long,
}
use gophertunnel.Varint
use gophertunnel.Io.{
  M, ◌>>=◌, ◌>>◌, pure, panic_if, Io, Vec3, Vec2, BlockPos, ChunkPos, SubChunkPos, Rgba,
}

-- The number that bytes stand for, lowest first: `binary.LittleEndian`.
unfoldable pub le_get : List ℕ → ℕ
le_get [] = 0
le_get (b ∷ bs) = b + 256 * le_get bs

-- `ReadByte` of a `bytes.Buffer`.
unfoldable pub read_byte : M ℕ
read_byte s = elim (s.bytes) [ [] ↦ err eof | b ∷ rest ↦ ok (b, record s { bytes = rest }) ]

-- `r.r.Read(r.buf[:n])` for n above 0: a `bytes.Buffer` gives what it has, and fails only if it is
-- empty. The bytes of `buf` that were not overwritten are those of an earlier read.
unfoldable pub read_fixed : ℕ → M (List ℕ)
read_fixed n s =
    let buf' = take n s.bytes ++ drop (length (take n s.bytes)) s.buf in
    if length s.bytes == 0
    then err eof
    else ok (take n buf', record { bytes = drop n s.bytes; buf = buf' })

-- `io.ReadFull` into `n` bytes.
unfoldable pub read_full : ℕ → M (List ℕ)
read_full n s =
    if leb n (length s.bytes)
    then ok (take n s.bytes, record s { bytes = drop n s.bytes })
    else err (if length s.bytes == 0 then eof else unexpected_eof)

-- One of the loops over `ReadByte` of varint.go on the Reader's source.
abbrev pub on_bytes : {A : Type 0} → (List ℕ → Result Error (A × List ℕ)) → M A
on_bytes f s = elim (f s.bytes) [ ok (a, rest) ↦ ok (a, record s { bytes = rest }) | err e ↦ err e ]

unfoldable pub uint8 : ℕ → M ℕ
uint8 x = read_byte

unfoldable pub int8 : ℕ → M ℕ
int8 x = uint8 x

-- The byte is taken for a bool as it is: any other than 0 tests as true.
unfoldable pub bool : Bool → M Bool
bool x = do u ← read_byte; pure (not (u == 0))

unfoldable pub uint16 : ℕ → M ℕ
uint16 x = do b ← read_fixed 2; pure (le_get b)

unfoldable pub int16 : ℕ → M ℕ
int16 x = uint16 x

unfoldable pub uint32 : ℕ → M ℕ
uint32 x = do b ← read_fixed 4; pure (le_get b)

unfoldable pub int32 : ℕ → M ℕ
int32 x = uint32 x

unfoldable pub be_int32 : ℕ → M ℕ
be_int32 x = do b ← read_fixed 4; pure (le_get (reverse b))

unfoldable pub uint64 : ℕ → M ℕ
uint64 x = do b ← read_fixed 8; pure (le_get b)

unfoldable pub int64 : ℕ → M ℕ
int64 x = uint64 x

unfoldable pub float32 : ℕ → M ℕ
float32 x = uint32 x

unfoldable pub float64 : ℕ → M ℕ
float64 x = uint64 x

unfoldable pub varint64 : ℕ → M ℕ
varint64 x = on_bytes Varint.varint64

unfoldable pub varuint64 : ℕ → M ℕ
varuint64 x = on_bytes Varint.varuint64

unfoldable pub varint32 : ℕ → M ℕ
varint32 x = on_bytes Varint.varint32

unfoldable pub varuint32 : ℕ → M ℕ
varuint32 x = on_bytes Varint.varuint32

-- `checkRemaining` for a length that is not negative.
unfoldable pub check_remaining : ℕ → M (Unit {0})
check_remaining l s = panic_if (ltb (length s.bytes) l) exceeds_remaining s

unfoldable pub string : List ℕ → M (List ℕ)
string x = do
  l ← varuint32 0
  panic_if (ltb (2 ^ 31 - 1) l) string_too_long
  check_remaining l
  read_full l

unfoldable pub byte_slice : List ℕ → M (List ℕ)
byte_slice x = string x

-- An int16 length with the top bit set is negative.
unfoldable pub string_utf : List ℕ → M (List ℕ)
string_utf x = do
  l ← int16 0
  panic_if (leb (2 ^ 15) l) negative_length
  check_remaining l
  read_full l

unfoldable pub bytes : List ℕ → M (List ℕ)
bytes x s = ok (s.bytes, record s { bytes = [] })

unfoldable pub vec3 : Vec3 → M Vec3
vec3 v = do x ← float32 v.x; y ← float32 v.y; z ← float32 v.z; pure (record { x = x; y = y; z = z })

unfoldable pub vec2 : Vec2 → M Vec2
vec2 v = do x ← float32 v.x; y ← float32 v.y; pure (record { x = x; y = y })

unfoldable pub block_pos : BlockPos → M BlockPos
block_pos p = do
  x ← varint32 p.x
  y ← varint32 p.y
  z ← varint32 p.z
  pure (record { x = x; y = y; z = z })

unfoldable pub chunk_pos : ChunkPos → M ChunkPos
chunk_pos p = do x ← varint32 p.x; z ← varint32 p.z; pure (record { x = x; z = z })

unfoldable pub sub_chunk_pos : SubChunkPos → M SubChunkPos
sub_chunk_pos p = do
  x ← int32 p.x
  y ← int32 p.y
  z ← int32 p.z
  pure (record { x = x; y = y; z = z })

-- Sixteen bytes; the two halves are stored in reverse.
unfoldable pub uuid : List ℕ → M (List ℕ)
uuid x = do b ← read_full 16; pure (reverse (take 8 b) ++ reverse (drop 8 b))

unfoldable pub rgba : Rgba → M Rgba
rgba x = do
  v ← uint32 0
  pure (record { r = v % 256; g = v / 2 ^ 8 % 256; b = v / 2 ^ 16 % 256; a = v / 2 ^ 24 % 256 })

unfoldable pub be_argb : Rgba → M Rgba
be_argb x = do
  v ← be_int32 0
  pure (record { a = v % 256; r = v / 2 ^ 8 % 256; g = v / 2 ^ 16 % 256; b = v / 2 ^ 24 % 256 })

unfoldable pub slice_length : Bool → ℕ → ℕ → M (Unit {0})
slice_length limits_enabled value most s =
    if ltb most value && limits_enabled
    then err slice_too_long
    else if ltb (length s.bytes) value
    then err exceeds_remaining
    else ok (tt, s)

-- A Reader with its field `limitsEnabled`, as an `IO`. The `Actor…` methods are other names.
abbrev pub reader : Bool → Io
reader limits_enabled = record {
  uint8 = uint8;
  int8 = int8;
  bool = bool;
  uint16 = uint16;
  int16 = int16;
  uint32 = uint32;
  int32 = int32;
  be_int32 = be_int32;
  uint64 = uint64;
  int64 = int64;
  float32 = float32;
  float64 = float64;
  varint64 = varint64;
  varuint64 = varuint64;
  varint32 = varint32;
  varuint32 = varuint32;
  actor_runtime_id = varuint64;
  actor_runtime_id_varint64 = varint64;
  actor_runtime_id_varuint32 = varuint32;
  actor_unique_id = varint64;
  actor_unique_id_int64 = int64;
  actor_unique_id_uint64 = uint64;
  actor_unique_id_varuint64 = varuint64;
  string = string;
  string_utf = string_utf;
  byte_slice = byte_slice;
  bytes = bytes;
  vec3 = vec3;
  vec2 = vec2;
  block_pos = block_pos;
  chunk_pos = chunk_pos;
  sub_chunk_pos = sub_chunk_pos;
  uuid = uuid;
  rgba = rgba;
  be_argb = be_argb;
  slice_length = some (slice_length limits_enabled);
}
