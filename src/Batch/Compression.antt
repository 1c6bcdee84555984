-- ===== src/Batch/Compression.antt =====
-- minecraft/protocol/packet/compression.go: the interface Compression. The algorithms of
-- klauspost/compress are parameters; NopCompression is here.
use gophertunnel.Prelude.{
  ℕ, ◌≤◌, List, length, ltb, if◌then◌else◌, ◌≡◌, ◌==◌, Option, none, some, [], ◌∷◌,
}
use gophertunnel.Prelude.Results.{Result, ok, err}
use gophertunnel.Errors.{Error, too_large}

-- `dynamic_type` stands for the type of the value, by which Go compares two Compressions. The
-- methods that append to a buffer give the bytes of the methods here after those of the buffer.
pub record Compression : Type 0 where
  pub dynamic_type : ℕ
  pub encode_compression : ℕ
  pub compress : List ℕ → Result Error (List ℕ)
  pub decompress : List ℕ → ℕ → Result Error (List ℕ)

-- What the code relies on: compressing succeeds, and what was compressed decompresses within any
-- limit that it fits.
pub record IsCompression (c : Compression) : Type 0 where
  pub compresses : (src : List ℕ) → (out : List ℕ) × (c.compress src ≡ ok out)
  pub decompresses :
      (src out : List ℕ) (limit : ℕ)
      → c.compress src ≡ ok out
      → length src ≤ limit
      → c.decompress out limit ≡ ok src

abbrev pub compression_algorithm_none : ℕ
compression_algorithm_none = 0xffff

abbrev pub nop_compression : Compression
nop_compression = record {
  dynamic_type = 0;
  encode_compression = compression_algorithm_none;
  compress = λ src. ok src;
  decompress = λ src limit. if ltb limit (length src) then err too_large else ok src;
}

-- The map `compressions` that `RegisterCompression` fills, the latest entry of an ID first.
abbrev pub Registry : Type 0
Registry = List (ℕ × Compression)

unfoldable pub register_compression : Registry → Compression → Registry
register_compression registry c = (c.encode_compression, c) ∷ registry

-- `CompressionByID`, whose other result is of use only where the ID is found.
unfoldable pub compression_by_id : Registry → ℕ → Option Compression
compression_by_id [] id = none
compression_by_id ((i, c) ∷ registry) id =
    let rest = compression_by_id registry id in if i == id then some c else rest
