-- ===== src/Batch/Encoder.antt =====
-- minecraft/protocol/packet/encoder.go: the Encoder. What `Encode` hands to its io.Writer is part of
-- the result. The pooled buffers do not show in what the code computes and are left out.
use gophertunnel.Prelude.{
  ℕ, ◌%◌, Bool, true, false, Option, none, some, List, [], ◌∷◌, ◌++◌, ltb, length, if◌then◌else◌,
}
use gophertunnel.Prelude.Results.{Result, ok, ◌>>=◌}
use gophertunnel.Errors.{Error}
use gophertunnel.Batch.Walk.{put_packets}
use gophertunnel.Batch.Encryption.{Crypto, Encrypt, encrypt}
use gophertunnel.Batch.Compression.{Compression, nop_compression}

-- The constant `header`.
abbrev pub batch_header : ℕ
batch_header = 0xfe

-- A negative threshold would be 0.
pub record Encoder (S : Type 0) : Type 0 where
  pub header : List ℕ
  pub compression_threshold : ℕ
  pub compression : Option Compression
  pub legacy_compression : Bool
  pub encryption : Option (Encrypt S)
  pub disable_encryption : Bool

-- `NewEncoder`: what the writer says of its batch header and of encryption, if it does.
unfoldable pub new_encoder : {S : Type 0} → Option (List ℕ) → Option Bool → Encoder S
new_encoder batch disable = record {
  header = elim batch [ some h ↦ h | none ↦ batch_header ∷ [] ];
  compression_threshold = 0;
  compression = none;
  legacy_compression = false;
  encryption = none;
  disable_encryption = elim disable [ some b ↦ b | none ↦ false ];
}

unfoldable pub enable_encryption : {S : Type 0} → Encoder S → Encrypt S → Encoder S
enable_encryption encoder e =
    if encoder.disable_encryption then encoder else record encoder { encryption = some e }

unfoldable pub enable_compression : {S : Type 0} → Encoder S → Compression → ℕ → Encoder S
enable_compression encoder c threshold = record encoder {
  compression = some c;
  compression_threshold = threshold;
  legacy_compression = false;
}

unfoldable pub enable_legacy_compression : {S : Type 0} → Encoder S → Compression → Encoder S
enable_legacy_compression encoder c = record encoder {
  compression = some c;
  compression_threshold = 0;
  legacy_compression = true;
}

-- The batch as it goes behind the header, before encryption.
unfoldable pub compress_batch : {S : Type 0} → Encoder S → List ℕ → Result Error (List ℕ)
compress_batch encoder batch = elim (encoder.compression) [
  | none ↦ ok batch
  | some c ↦
      if encoder.legacy_compression
      then c.compress batch
      else if ltb (length batch) encoder.compression_threshold
      then ok (nop_compression.encode_compression % 256 ∷ batch)
      else c.compress batch >>= λ out. ok (c.encode_compression % 256 ∷ out)
]

-- Encryption of the data with its header, where it is enabled.
unfoldable pub encrypt_batch :
    {S : Type 0} → Crypto S → Encoder S → List ℕ → Result Error (List ℕ × Encoder S)
encrypt_batch crypto encoder src = elim (encoder.encryption) [
  | none ↦ ok (src, encoder)
  | some e ↦ encrypt crypto e src >>= λ r. ok (r.0, record encoder { encryption = some r.1 })
]

unfoldable pub encode :
    {S : Type 0} → Crypto S → Encoder S → List (List ℕ) → Result Error (List ℕ × Encoder S)
encode crypto encoder packets = do
  batch ← compress_batch encoder (put_packets packets)
  encrypt_batch crypto encoder (encoder.header ++ batch)
