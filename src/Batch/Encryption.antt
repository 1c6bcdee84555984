-- ===== src/Batch/Encryption.antt =====
-- minecraft/protocol/packet/encryption.go: the encryption of batches and its checksum. The stream
-- cipher of crypto/cipher and the hash of crypto/sha256 are parameters.
use gophertunnel.Prelude.{
  ℕ, ◌+◌, ◌-◌, ◌%◌, ◌^◌, List, [], ◌∷◌, ◌++◌, ◌≡◌, ltb, length, take, drop, bytes_equal,
  length-take, length-append, take-append, drop-append, le→not-ltb, bytes_equal_refl, refl, false,
  arith, not, if◌then◌else◌,
}
use gophertunnel.Prelude.Results.{Result, ok, err}
use gophertunnel.Errors.{Error, bad_checksum, too_short, index_out_of_range}
use gophertunnel.Io.Writer.{le_put}

-- A stream cipher in each direction, `XORKeyStream` with its state written out, and the hash.
pub record Crypto (S : Type 0) : Type 0 where
  pub seal : S → List ℕ → List ℕ × S
  pub unseal : S → List ℕ → List ℕ × S
  pub sha256 : List ℕ → List ℕ

-- What the code relies on: deciphering undoes enciphering from the same state and ends in the same
-- state, and a digest has 32 bytes.
pub record IsCrypto {S : Type 0} (c : Crypto S) : Type 0 where
  pub undo : (s : S) (src : List ℕ) → c.unseal s (c.seal s src).0 ≡ (src, (c.seal s src).1)
  pub sha256_size : (src : List ℕ) → length (c.sha256 src) ≡ 32

-- The struct `encrypt`, and `cfb8Encryption` with the stream of the direction it is used in. (`buf`
-- is filled anew before each use.)
pub record Encrypt (S : Type 0) : Type 0 where
  pub send_counter : ℕ
  pub key_bytes : List ℕ
  pub stream : S

module _ {S : Type 0} (crypto : Crypto S) where
  -- The first 8 bytes of the hash of the counter, the data and the key.
  unfoldable pub checksum : Encrypt S → List ℕ → List ℕ
  checksum e src = take 8 (crypto.sha256 (le_put 8 e.send_counter ++ src ++ e.key_bytes))

  -- `Encrypt`; `data[1:]` panics on no data.
  unfoldable pub encrypt : Encrypt S → List ℕ → Result Error (List ℕ × Encrypt S)
  unfolding checksum
  encrypt e [] = err index_out_of_range
  encrypt e (first ∷ src) =
      let sealed = crypto.seal e.stream (src ++ checksum e src) in
      ok (
        first ∷ sealed.0,
        record e { send_counter = (e.send_counter + 1) % 2 ^ 64; stream = sealed.1 },
      )

  -- `Decrypt`, which leaves the data decrypted in place.
  unfoldable pub decrypt : Encrypt S → List ℕ → List ℕ × Encrypt S
  decrypt e src =
      let opened = crypto.unseal e.stream src in (opened.0, record e { stream = opened.1 })

  -- `Verify`
  unfoldable pub verify : Encrypt S → List ℕ → Result Error (Unit {0}) × Encrypt S
  unfolding checksum
  verify e src =
      let body = take (length src - 8) src in
      let sum = drop (length src - 8) src in
      let e' : Encrypt S = record e { send_counter = (e.send_counter + 1) % 2 ^ 64 } in
      if ltb (length src) 8
      then (err too_short, e)
      else if not (bytes_equal sum (checksum e body))
      then (err bad_checksum, e')
      else (ok tt, e')

  pub length-checksum :
      IsCrypto crypto → (e : Encrypt S) (src : List ℕ) → length (checksum e src) ≡ 8
  unfolding checksum
  length-checksum w e src =
      let whole = le_put 8 e.send_counter ++ src ++ e.key_bytes in
      omega (arith, length-take 8 (crypto.sha256 whole), w.sha256_size whole)

  -- `Verify` accepts data that ends in its checksum.
  verify_lem :
      IsCrypto crypto
      → (e : Encrypt S) (src : List ℕ)
      → verify e (src ++ checksum e src)
        ≡ (ok tt, record e { send_counter = (e.send_counter + 1) % 2 ^ 64 })
  unfolding verify
  verify_lem w e src =
      let eight = length-checksum w e src in
      let whole : length (src ++ checksum e src) ≡ length src + 8 =
        omega (arith, eight, length-append src (checksum e src)) in
      let cut : length src + 8 - 8 ≡ length src = omega arith in
      let enough : ltb (length src + 8) 8 ≡ false = le→not-ltb _ _ (omega arith) in
      rw (
        verify,
        whole,
        cut,
        enough,
        take-append (length src) src (checksum e src) refl,
        drop-append (length src) src (checksum e src) refl,
        bytes_equal_refl,
      )

  -- From the same counter, key and stream state, with a cipher that undoes itself and a hash of 32
  -- bytes, Decrypt undoes Encrypt behind the clear first byte, Verify accepts the checksum, and
  -- both sides end in the same state.
  pub verify-decrypt-encrypt :
      IsCrypto crypto
      → (e : Encrypt S) (first : ℕ) (src : List ℕ)
      → (out : List ℕ) × (after opened : Encrypt S) × (encrypt e (first ∷ src)
          ≡ ok (first ∷ out, after))
        × (decrypt e out ≡ (src ++ checksum e src, opened))
        × (verify opened (src ++ checksum e src) ≡ (ok tt, after))
  unfolding encrypt decrypt checksum
  verify-decrypt-encrypt w e first src =
      let sealed = crypto.seal e.stream (src ++ checksum e src) in
      let opened : Encrypt S = record e { stream = sealed.1 } in
      (
        sealed.0,
        record opened { send_counter = (e.send_counter + 1) % 2 ^ 64 },
        opened,
        refl,
        rw (w.undo e.stream (src ++ checksum e src)),
        verify_lem w opened src,
      )
