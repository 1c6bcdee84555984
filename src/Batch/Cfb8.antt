-- ===== src/Batch/Cfb8.antt =====
-- minecraft/protocol/packet/encryption.go: the struct `cfb8`, cipher feedback with segments of eight
-- bits. The block cipher of crypto/aes is a parameter. (`XORKeyStream` is called with `dst` being
-- `src`; each byte of `src` is used before its place is written.)
use gophertunnel.Prelude.{
  ℕ, Bool, true, false, List, [], ◌∷◌, ◌++◌, drop, bit_xor, if◌then◌else◌, ◌≡◌, refl, length,
}
use gophertunnel.Bits.{bit_xor_undo}
use gophertunnel.Batch.Encryption.{Crypto, IsCrypto}

-- `out[0]` of a block that is never empty.
abbrev pub first : List ℕ → ℕ
first [] = 0
first (b ∷ bs) = b

module _ (block : List ℕ → List ℕ) where
  -- `XORKeyStream`: `reg` is the shift register `in`.
  unfoldable pub xor_key_stream : Bool → List ℕ → List ℕ → List ℕ × List ℕ
  xor_key_stream decrypt reg [] = ([], reg)
  xor_key_stream decrypt reg (b ∷ src) =
      let x = bit_xor b (first (block reg)) in
      let rest = xor_key_stream decrypt (drop 1 reg ++ (if decrypt then b else x) ∷ []) src in
      (x ∷ rest.0, rest.1)

  -- CFB8 deciphering undoes enciphering from the same register, for every block function, and
  -- leaves the two registers the same.
  pub xor_key_stream_undo :
      (reg src : List ℕ)
      → xor_key_stream true reg (xor_key_stream false reg src).0
        ≡ (src, (xor_key_stream false reg src).1)
  unfolding xor_key_stream
  xor_key_stream_undo reg [] = refl
  xor_key_stream_undo reg (b ∷ src) =
      let x = bit_xor b (first (block reg)) in
      let rest = xor_key_stream_undo (drop 1 reg ++ x ∷ []) src in
      rw (rest, bit_xor_undo b (first (block reg)))

  abbrev pub cfb8 : (List ℕ → List ℕ) → Crypto (List ℕ)
  cfb8 sha256 = record {
    seal = xor_key_stream false;
    unseal = xor_key_stream true;
    sha256 = sha256;
  }

  -- CFB8 is a cipher that the batches can be encrypted with.
  pub cfb8-IsCrypto :
      (sha256 : List ℕ → List ℕ)
      → ((src : List ℕ) → length (sha256 src) ≡ 32)
      → IsCrypto (cfb8 sha256)
  cfb8-IsCrypto sha256 size = record { undo = xor_key_stream_undo; sha256_size = size }
