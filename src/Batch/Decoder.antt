-- ===== src/Batch/Decoder.antt =====
-- minecraft/protocol/packet/decoder.go: the Decoder. The bytes that one read of its io.Reader gives
-- are an argument. The pooled buffers do not show in what the code computes and are left out.
pub mod Outcomes
use gophertunnel.Prelude.{
  ℕ, ◌*◌, Bool, true, false, not, Option, none, some, List, [], ◌∷◌, ◌-◌, ltb, ◌==◌, length, take,
  drop, min, bytes_equal, if◌then◌else◌,
}
use gophertunnel.Prelude.Results.{Result, ok, err, ◌>>=◌}
use gophertunnel.Errors.{
  Error, bad_header, missing_algorithm, unknown_algorithm, unexpected_algorithm, too_large,
}
use gophertunnel.Batch.Walk.{walk_batch, collect, validate}
use gophertunnel.Batch.Encoder.{batch_header}
use gophertunnel.Batch.Encryption.{Crypto, Encrypt, decrypt, verify}
use gophertunnel.Batch.Compression.{Compression, nop_compression, Registry, compression_by_id}

abbrev pub default_max_decompressed_len : ℕ
default_max_decompressed_len = 16 * 1024 * 1024

-- `math.MaxInt` on 64 bits.
abbrev pub max_int : ℕ
max_int = 0x7fffffffffffffff

pub record Decoder (S : Type 0) : Type 0 where
  pub header : List ℕ
  pub decompress : Bool
  pub compression : Compression
  pub legacy_compression : Bool
  pub max_decompressed_len : ℕ
  pub encryption : Option (Encrypt S)
  pub disable_encryption : Bool
  pub check_packet_limit : Bool

-- `NewDecoder`. (`compression` starts as nil and is not used before `decompress` is set.)
unfoldable pub new_decoder : {S : Type 0} → Option (List ℕ) → Option Bool → Decoder S
new_decoder batch disable = record {
  header = elim batch [ some h ↦ h | none ↦ batch_header ∷ [] ];
  decompress = false;
  compression = nop_compression;
  legacy_compression = false;
  max_decompressed_len = default_max_decompressed_len;
  encryption = none;
  disable_encryption = elim disable [ some b ↦ b | none ↦ false ];
  check_packet_limit = true;
}

unfoldable pub enable_encryption : {S : Type 0} → Decoder S → Encrypt S → Decoder S
enable_encryption decoder e =
    if decoder.disable_encryption then decoder else record decoder { encryption = some e }

-- The limit that `EnableCompression` is given: an int.
pub data Limit : Type 0 where
  negative : Limit
  at : ℕ → Limit

-- A limit of 0 stands for the default, and a negative one for none.
unfoldable pub effective_limit : Limit → ℕ
effective_limit negative = max_int
effective_limit (at n) = if n == 0 then default_max_decompressed_len else n

unfoldable pub enable_compression : {S : Type 0} → Decoder S → Compression → Limit → Decoder S
unfolding effective_limit
enable_compression decoder c limit = record decoder {
  decompress = true;
  compression = c;
  legacy_compression = false;
  max_decompressed_len = effective_limit limit;
}

unfoldable pub enable_legacy_compression :
    {S : Type 0} → Decoder S → Compression → Limit → Decoder S
unfolding enable_compression
enable_legacy_compression decoder c limit = record (enable_compression decoder c limit) {
  legacy_compression = true;
}

unfoldable pub disable_batch_packet_limit : {S : Type 0} → Decoder S → Decoder S
disable_batch_packet_limit decoder = record decoder { check_packet_limit = false }

-- The part of `readBatch` that decompresses.
unfoldable pub decompress_batch :
    {S : Type 0} → Registry → Decoder S → List ℕ → Result Error (List ℕ)
decompress_batch registry decoder src =
    if not decoder.decompress
    then ok src
    else if decoder.legacy_compression
    then decoder.compression.decompress src decoder.max_decompressed_len
    else elim src [
      | [] ↦ err missing_algorithm
      | algorithm ∷ rest ↦
          if algorithm == 0xff then ok rest else elim (compression_by_id registry algorithm) [
            | none ↦ err unknown_algorithm
            | some c ↦
                if c.dynamic_type == decoder.compression.dynamic_type
                then c.decompress rest decoder.max_decompressed_len
                else err unexpected_algorithm
          ]
    ]

-- The part of `readBatch` that deciphers and verifies; the state changes also where it fails.
unfoldable pub decrypt_batch :
    {S : Type 0} → Crypto S → Decoder S → List ℕ → Result Error (List ℕ) × Decoder S
decrypt_batch crypto decoder src = elim (decoder.encryption) [
  | none ↦ (ok src, decoder)
  | some e ↦
      let plain = decrypt crypto e src in
      let checked = verify crypto plain.1 plain.0 in
      (
        checked.0 >>= λ _. ok (take (length plain.0 - 8) plain.0),
        record decoder { encryption = some checked.1 },
      )
]

-- The check of the size at the end of `readBatch`.
unfoldable pub check_size : {S : Type 0} → Decoder S → List ℕ → Result Error (List ℕ)
check_size decoder src =
    if ltb decoder.max_decompressed_len (length src) then err too_large else ok src

unfoldable pub read_batch :
    {S : Type 0} → Crypto S → Registry → Decoder S → List ℕ → Result Error (List ℕ) × Decoder S
read_batch crypto registry decoder src =
    let h = take (min (length decoder.header) (length src)) src in
    let opened = decrypt_batch crypto decoder (drop (length decoder.header) src) in
    if length src == 0
    then (ok [], decoder)
    else if not (bytes_equal h decoder.header)
    then (err bad_header, decoder)
    else (
      opened.0 >>= λ batch. decompress_batch registry decoder batch >>= check_size decoder,
      opened.1,
    )

unfoldable pub decode :
    {S : Type 0}
    → Crypto S
    → Registry
    → Decoder S
    → List ℕ
    → Result Error (List (List ℕ)) × Decoder S
decode crypto registry decoder src =
    let batch = read_batch crypto registry decoder src in
    (batch.0 >>= λ src'. walk_batch decoder.check_packet_limit collect src' [], batch.1)

-- `DecodeFunc`, whose callback acts on a state; it is the state before the calls where the batch is
-- refused.
unfoldable pub decode_func :
    {S A : Type 0}
    → Crypto S
    → Registry
    → (List ℕ → A → Result Error A)
    → Decoder S
    → List ℕ
    → A
    → Result Error A × Decoder S
decode_func crypto registry f decoder src a =
    let batch = read_batch crypto registry decoder src in
    (
      batch.0 >>= λ src'. walk_batch decoder.check_packet_limit validate src' tt >>= λ _.
          walk_batch decoder.check_packet_limit f src' a,
      batch.1,
    )
