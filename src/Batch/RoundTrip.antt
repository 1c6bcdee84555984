-- ===== src/Batch/RoundTrip.antt =====
-- The Encoder of one side and the Decoder of the other.
use gophertunnel.Prelude.{
  ℕ, ◌-◌, ◌%◌, ◌^◌, ◌≤◌, ◌<◌, Bool, true, false, Option, none, some, List, [], ◌∷◌, ◌++◌, length,
  ◌≡◌, ◌≢◌, refl, ◌∙◌, sym, ap, arith, All, ◌⊎◌, inl, inr, take, length-append, take-append,
  drop-append, Bool-cases, Option-cases, bytes_equal_refl, ◌==◌, ltb, min, le→not-ltb, ==_refl,
}
use gophertunnel.Prelude.Results.{ok}
use gophertunnel.Batch.Walk.{put_packets, maximum_in_batch, walk_batch, collect}
use gophertunnel.Batch.Walk.RoundTrip.{IsEntry, walk_batch-put_packets}
use gophertunnel.Batch.Encryption.{
  Crypto, IsCrypto, Encrypt, encrypt, decrypt, verify, verify-decrypt-encrypt, checksum,
  length-checksum,
}
use gophertunnel.Batch.Compression.{Compression, IsCompression, Registry, compression_by_id}
use gophertunnel.Batch.Encoder.{Encoder, compress_batch, encrypt_batch, encode}
use gophertunnel.Batch.Decoder.{
  Decoder, decompress_batch, decrypt_batch, check_size, read_batch, decode,
}

-- The two sides agree on the compression: none, one with its ID in the batch, or the legacy one.
pub data Agree (registry : Registry) (compression : Option Compression) (legacy decompress : Bool)
    (expected : Compression) (legacy' : Bool) : Type 0 where
  uncompressed :
      compression ≡ none
      → decompress ≡ false
      → Agree registry compression legacy decompress expected legacy'
  modern :
      compression ≡ some expected
      → legacy ≡ false
      → decompress ≡ true
      → legacy' ≡ false
      → IsCompression expected
      → expected.encode_compression < 255
      → compression_by_id registry expected.encode_compression ≡ some expected
      → Agree registry compression legacy decompress expected legacy'
  old :
      compression ≡ some expected
      → legacy ≡ true
      → decompress ≡ true
      → legacy' ≡ true
      → IsCompression expected
      → Agree registry compression legacy decompress expected legacy'

pub record Paired {S : Type 0} (registry : Registry) (enc : Encoder S) (dec : Decoder S)
    : Type 0 where
  pub header : dec.header ≡ enc.header
  pub some_header : 1 ≤ length enc.header
  pub encryption : dec.encryption ≡ enc.encryption
  pub one_byte : enc.encryption ≢ none → length enc.header ≡ 1
  pub compression :
      Agree registry enc.compression enc.legacy_compression dec.decompress dec.compression
        dec.legacy_compression

module _ {S : Type 0} (registry : Registry) where
  decompress-compress :
      (enc : Encoder S) (dec : Decoder S) (batch : List ℕ)
      → Agree registry enc.compression enc.legacy_compression dec.decompress dec.compression
          dec.legacy_compression
      → length batch ≤ dec.max_decompressed_len
      → (out : List ℕ) × (compress_batch enc batch ≡ ok out)
        × (decompress_batch registry dec out ≡ ok batch)
  unfolding compress_batch decompress_batch
  decompress-compress enc dec batch (uncompressed none_here off) fits =
      (batch, rw (compress_batch, none_here), rw (decompress_batch, off))
  decompress-compress enc dec batch (modern c_here new on new' w small known) fits =
      let c = dec.compression in
      let (out, e) = w.compresses batch in
      let id : c.encode_compression % 256 ≡ c.encode_compression = omega arith in
      let other : (c.encode_compression == 0xff) ≡ false = ground arith in
      elim (Bool-cases (ltb (length batch) enc.compression_threshold)) [
        | inl below ↦
            (0xff ∷ batch, rw (compress_batch, c_here, new, below), rw (decompress_batch, on, new'))
        | inr above ↦ (
          c.encode_compression ∷ out,
          rw (compress_batch, c_here, new, above, e, id),
          rw (decompress_batch, on, new', other, known, ==_refl c.dynamic_type)
              (w.decompresses batch out dec.max_decompressed_len e fits),
        )
      ]
  decompress-compress enc dec batch (old c_here legacy on legacy' w) fits =
      let (out, e) = w.compresses batch in
      (
        out,
        rw (compress_batch, c_here, legacy) e,
        rw (decompress_batch, on, legacy')
            (w.decompresses batch out dec.max_decompressed_len e fits),
      )

single : (xs : List ℕ) → length xs ≡ 1 → (b : ℕ) × (xs ≡ b ∷ [])
single [] h = absurd (omega arith)
single (b ∷ []) h = (b, refl)
single (b ∷ c ∷ xs) h = absurd (omega arith)

module _ {S : Type 0} (crypto : Crypto S) (w : IsCrypto crypto) where
  encrypt_batch-some :
      (enc : Encoder S) (e after : Encrypt S) (src out : List ℕ)
      → enc.encryption ≡ some e
      → encrypt crypto e src ≡ ok (out, after)
      → encrypt_batch crypto enc src ≡ ok (out, record enc { encryption = some after })
  unfolding encrypt_batch
  encrypt_batch-some enc e after src out on sealed = simp (encrypt_batch, on, sealed)

  decrypt_batch-some :
      (dec : Decoder S) (e opened after : Encrypt S) (src plain body : List ℕ)
      → dec.encryption ≡ some e
      → decrypt crypto e src ≡ (plain, opened)
      → verify crypto opened plain ≡ (ok tt, after)
      → take (length plain - 8) plain ≡ body
      → decrypt_batch crypto dec src ≡ (ok body, record dec { encryption = some after })
  unfolding decrypt_batch
  decrypt_batch-some dec e opened after src plain body on deciphered checked cut =
      simp (decrypt_batch, on, deciphered, checked, cut)

  -- One side encrypts what the other decrypts, from the same state to the same state.
  decrypt-encrypt :
      (enc : Encoder S) (dec : Decoder S) (body : List ℕ)
      → dec.encryption ≡ enc.encryption
      → (enc.encryption ≢ none → length enc.header ≡ 1)
      → (out : List ℕ) × (after : Option (Encrypt S)) × (encrypt_batch crypto enc
            (enc.header ++ body)
          ≡ ok (enc.header ++ out, record enc { encryption = after }))
        × (decrypt_batch crypto dec out ≡ (ok body, record dec { encryption = after }))
        × (after ≢ none → enc.encryption ≢ none)
  unfolding encrypt_batch decrypt_batch
  decrypt-encrypt enc dec body same one = elim (Option-cases enc.encryption) [
    | inl off ↦ (
      body,
      enc.encryption,
      simp (encrypt_batch, off)
          (ap (λ t. ok (enc.header ++ body, record enc { encryption = t })) off),
      simp (decrypt_batch, same, off)
          (ap (λ t. (ok body, record dec { encryption = t })) (same ∙ off)),
      λ on. on,
    )
    | inr (e, on) ↦
        let something : enc.encryption ≢ none = λ off. cc in
        let (first, h) = single enc.header (one something) in
        let (out, after, opened, sealed, deciphered, checked) =
          verify-decrypt-encrypt crypto w e first body in
        let eight = length-checksum crypto w e body in
        let size : length (body ++ checksum crypto e body) - 8 ≡ length body =
          omega (arith, length-append body (checksum crypto e body), eight) in
        (
          out,
          some after,
          encrypt_batch-some enc e after (enc.header ++ body) (enc.header ++ out) on (rw h sealed),
          decrypt_batch-some dec e opened after out (body ++ checksum crypto e body) body
              (same ∙ on) deciphered checked
              (rw size (take-append (length body) body (checksum crypto e body) refl)),
          λ _. something,
        )
  ]

  check_size_fits :
      (dec : Decoder S) (batch : List ℕ)
      → length batch ≤ dec.max_decompressed_len
      → check_size dec batch ≡ ok batch
  unfolding check_size
  check_size_fits dec batch fits = rw (check_size, le→not-ltb _ _ fits)

  read_batch_lem :
      (registry : Registry) (dec dec' : Decoder S) (src body batch : List ℕ)
      → 1 ≤ length dec.header
      → decrypt_batch crypto dec src ≡ (ok body, dec')
      → decompress_batch registry dec body ≡ ok batch
      → length batch ≤ dec.max_decompressed_len
      → read_batch crypto registry dec (dec.header ++ src) ≡ (ok batch, dec')
  unfolding read_batch
  read_batch_lem registry dec dec' src body batch some_header deciphered decompressed fits =
      let size = length-append dec.header src in
      let not_empty : (length (dec.header ++ src) == 0) ≡ false = ground (arith, size) in
      let all_of_it : min (length dec.header) (length (dec.header ++ src)) ≡ length dec.header =
        omega (arith, size) in
      rw (
        read_batch,
        all_of_it,
        not_empty,
        take-append (length dec.header) dec.header src refl,
        drop-append (length dec.header) dec.header src refl,
        bytes_equal_refl dec.header,
        deciphered,
        decompressed,
        check_size_fits dec batch fits,
      )

  read_batch_at :
      (registry : Registry) (dec dec' : Decoder S) (header src body batch : List ℕ)
      → dec.header ≡ header
      → 1 ≤ length header
      → decrypt_batch crypto dec src ≡ (ok body, dec')
      → decompress_batch registry dec body ≡ ok batch
      → length batch ≤ dec.max_decompressed_len
      → read_batch crypto registry dec (header ++ src) ≡ (ok batch, dec')
  read_batch_at registry dec dec' header src body batch same some_header deciphered decompressed
        fits =
      rw (sym same) (
        read_batch_lem registry dec dec' src body batch (rw same some_header) deciphered
          decompressed fits)

  decode_lem :
      (registry : Registry) (dec dec' : Decoder S) (src batch : List ℕ) (packets : List (List ℕ))
      → read_batch crypto registry dec src ≡ (ok batch, dec')
      → walk_batch dec.check_packet_limit collect batch [] ≡ ok packets
      → decode crypto registry dec src ≡ (ok packets, dec')
  unfolding decode
  decode_lem registry dec dec' src batch packets read walked = rw (decode, read, walked)

  -- What Encode writes, Decode of a paired Decoder reads back as the same packets, through
  -- framing, compression and encryption, and the two are left paired for the next batch; for
  -- packets that are not empty and shorter than 2^32, no more of them than the Decoder allows and
  -- with a payload within its limit and shorter than 2^32 bytes, on two sides that agree on the
  -- compression, on a header that is not empty (one byte long where they encrypt) and on the state
  -- of the encryption, with a cipher and a compression that undo what they do.
  pub decode-encode :
      (registry : Registry) (enc : Encoder S) (dec : Decoder S) (packets : List (List ℕ))
      → Paired registry enc dec
      → All IsEntry packets
      → (length packets ≤ maximum_in_batch) ⊎ (dec.check_packet_limit ≡ false)
      → length (put_packets packets) ≤ dec.max_decompressed_len
      → length (put_packets packets) < 2 ^ 32
      → (out : List ℕ) × (enc' : Encoder S) × (dec' : Decoder S) × (encode crypto enc packets
          ≡ ok (out, enc'))
        × (decode crypto registry dec out ≡ (ok packets, dec'))
        × Paired registry enc' dec'
  unfolding encode
  decode-encode registry enc dec packets p entries few fits narrow =
      let (body, compressed, decompressed) =
        decompress-compress registry enc dec (put_packets packets) p.compression fits in
      let (out, after, sealed, deciphered, still) =
        decrypt-encrypt enc dec body p.encryption p.one_byte in
      let walked = walk_batch-put_packets dec.check_packet_limit packets entries narrow few in
      (
        enc.header ++ out,
        record enc { encryption = after },
        record dec { encryption = after },
        rw compressed sealed,
        decode_lem registry dec (record dec { encryption = after }) (enc.header ++ out)
            (put_packets packets) packets
            (read_batch_at registry dec (record dec { encryption = after }) enc.header out body
              (put_packets packets) p.header p.some_header deciphered decompressed fits)
            walked,
        record {
          header = p.header;
          some_header = p.some_header;
          encryption = refl;
          one_byte = λ on. p.one_byte (still on);
          compression = p.compression;
        },
      )
