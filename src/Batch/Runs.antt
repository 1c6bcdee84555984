-- ===== src/Batch/Runs.antt =====
-- A batch of two packets between a pair of sides, and the theorems at concrete inputs. The cipher is
-- CFB8 over a block function that changes nothing, the hash is constant, and the compression copies.
use gophertunnel.Prelude.{
  ℕ, ◌+◌, ◌^◌, ◌≤◌, ◌<◌, List, [], ◌∷◌, ◌++◌, length, true, false, none, some, All, ◌≡◌, refl,
  arith, inl, ltb, if◌then◌else◌, le→not-ltb,
}
use gophertunnel.Prelude.Results.{Result, ok, err, ◌>>=◌, fold_result}
use gophertunnel.Errors.{Error, too_large}
use gophertunnel.Io.{replicate}
use gophertunnel.Varint.{read_loop, write_loop}
use gophertunnel.Batch.Walk.{
  put_packets, put_varuint32, packet_length_loop, read_packet_length, check_packet, walk_loop,
  walk_batch, collect, maximum_in_batch,
}
use gophertunnel.Batch.Walk.RoundTrip.{
  IsEntry, packet_length_loop-read_loop, walk_batch-put_packets,
}
use gophertunnel.Batch.Encryption.{
  Crypto, IsCrypto, Encrypt, checksum, encrypt, decrypt, verify, verify-decrypt-encrypt,
}
use gophertunnel.Batch.Cfb8.{xor_key_stream, cfb8, cfb8-IsCrypto, xor_key_stream_undo}
use gophertunnel.Batch.Compression.{Compression, IsCompression, Registry, compression_by_id}
use gophertunnel.Batch.Encoder.{Encoder, encode}
use gophertunnel.Batch.Decoder.{
  Decoder, decode, decode_func, read_batch, decrypt_batch, decompress_batch, check_size,
}
use gophertunnel.Batch.Decoder.Outcomes.{decode_func-decode, decode-bounded, read_batch-fits}
use gophertunnel.Batch.RoundTrip.{modern, Paired, decode-encode}

abbrev crypto : Crypto (List ℕ)
crypto = cfb8 (λ reg. reg) (λ src. replicate 32 7)

crypto-IsCrypto : IsCrypto crypto
crypto-IsCrypto = cfb8-IsCrypto (λ reg. reg) (λ src. replicate 32 7) (λ src. refl)

abbrev session : Encrypt (List ℕ)
session = record { send_counter = 0; key_bytes = 1 ∷ 2 ∷ []; stream = 5 ∷ 6 ∷ [] }

abbrev copying : Compression
copying = record {
  dynamic_type = 1;
  encode_compression = 0;
  compress = λ src. ok src;
  decompress = λ src limit. if ltb limit (length src) then err too_large else ok src;
}

copying_fits :
    (src : List ℕ) (limit : ℕ) → length src ≤ limit → copying.decompress src limit ≡ ok src
copying_fits src limit h = rw (le→not-ltb limit (length src) h)

copying-IsCompression : IsCompression copying
copying-IsCompression = record {
  compresses = λ src. (src, refl);
  decompresses =
      λ src out limit e h. let same : src ≡ out = cc in rw⁻¹ same (copying_fits src limit h);
}

abbrev registry : Registry
registry = (0, copying) ∷ []

copying_known : compression_by_id registry 0 ≡ some copying
unfolding compression_by_id
copying_known = refl

abbrev enc : Encoder (List ℕ)
enc = record {
  header = 0xfe ∷ [];
  compression_threshold = 1;
  compression = some copying;
  legacy_compression = false;
  encryption = some session;
  disable_encryption = false;
}

abbrev dec : Decoder (List ℕ)
dec = record {
  header = 0xfe ∷ [];
  decompress = true;
  compression = copying;
  legacy_compression = false;
  max_decompressed_len = 100;
  encryption = some session;
  disable_encryption = false;
  check_packet_limit = true;
}

enc-Paired : Paired registry enc dec
enc-Paired = record {
  header = refl;
  some_header = omega arith;
  encryption = refl;
  one_byte = λ on. refl;
  compression = modern refl refl refl refl copying-IsCompression (omega arith) copying_known;
}

abbrev two : List (List ℕ)
two = (1 ∷ 2 ∷ []) ∷ (3 ∷ []) ∷ []

two-IsEntry : All IsEntry two
two-IsEntry = ((omega arith, omega arith), ((omega arith, omega arith), tt))

two_fit : length (put_packets two) ≤ 100
unfolding put_packets put_varuint32 write_loop
two_fit = omega arith

two_narrow : length (put_packets two) < 2 ^ 32
two_narrow = omega (arith, two_fit)

decode-encode_example :
    (out : List ℕ) × (enc' : Encoder (List ℕ)) × (dec' : Decoder (List ℕ)) × (encode crypto enc two
      ≡ ok (out, enc'))
    × (decode crypto registry dec out ≡ (ok two, dec'))
    × Paired registry enc' dec'
decode-encode_example =
    decode-encode crypto crypto-IsCrypto registry enc dec two enc-Paired two-IsEntry
      (inl (omega arith)) two_fit two_narrow

walk_batch-put_packets_example : walk_batch true collect (put_packets two) [] ≡ ok two
walk_batch-put_packets_example =
    walk_batch-put_packets true two two-IsEntry two_narrow (inl (omega arith))

read_5 : read_loop 32 5 0 0 (5 ∷ 9 ∷ []) ≡ ok (5, 9 ∷ [])
unfolding read_loop
read_5 = refl

packet_length_loop-read_loop_example : packet_length_loop 5 0 0 (5 ∷ 9 ∷ []) ≡ ok (5, 9 ∷ [])
packet_length_loop-read_loop_example =
    packet_length_loop-read_loop 5 0 0 (5 ∷ 9 ∷ []) 5 (9 ∷ []) read_5

verify-decrypt-encrypt_example :
    (out : List ℕ) × (after opened : Encrypt (List ℕ)) × (encrypt crypto session (0xfe ∷ 1 ∷ 2 ∷ [])
      ≡ ok (0xfe ∷ out, after))
    × (decrypt crypto session out ≡ ((1 ∷ 2 ∷ []) ++ checksum crypto session (1 ∷ 2 ∷ []), opened))
    × (verify crypto opened ((1 ∷ 2 ∷ []) ++ checksum crypto session (1 ∷ 2 ∷ [])) ≡ (ok tt, after))
verify-decrypt-encrypt_example =
    verify-decrypt-encrypt crypto crypto-IsCrypto session 0xfe (1 ∷ 2 ∷ [])

xor_key_stream_undo_example :
    xor_key_stream
      (λ reg. reg)
      true
      (5 ∷ 6 ∷ [])
      (xor_key_stream (λ reg. reg) false (5 ∷ 6 ∷ []) (7 ∷ 8 ∷ [])).0
    ≡ (7 ∷ 8 ∷ [], (xor_key_stream (λ reg. reg) false (5 ∷ 6 ∷ []) (7 ∷ 8 ∷ [])).1)
xor_key_stream_undo_example = xor_key_stream_undo (λ reg. reg) (5 ∷ 6 ∷ []) (7 ∷ 8 ∷ [])

abbrev open_dec : Decoder (List ℕ)
open_dec = record dec { encryption = none; decompress = false }

abbrev arrived : List ℕ
arrived = 0xfe ∷ 2 ∷ 1 ∷ 2 ∷ 1 ∷ 3 ∷ []

decode-arrived : (decode crypto registry open_dec arrived).0 ≡ ok two
unfolding decode read_batch decrypt_batch decompress_batch check_size walk_batch walk_loop
    read_packet_length packet_length_loop check_packet
decode-arrived = refl

abbrev payload : List ℕ
payload = 2 ∷ 1 ∷ 2 ∷ 1 ∷ 3 ∷ []

read_batch-arrived : (read_batch crypto registry open_dec arrived).0 ≡ ok (2 ∷ 1 ∷ 2 ∷ 1 ∷ 3 ∷ [])
unfolding read_batch decrypt_batch decompress_batch check_size
read_batch-arrived = refl

decode-bounded_example :
    All (λ packet. 1 ≤ length packet) two × (true ≡ true → length two ≤ maximum_in_batch)
decode-bounded_example = decode-bounded crypto registry open_dec arrived two decode-arrived

read_batch-fits_example : length payload ≤ 100
read_batch-fits_example =
    read_batch-fits crypto registry open_dec arrived payload read_batch-arrived

-- A callback that counts the packets and fails at the third.
abbrev count : List ℕ → ℕ → Result Error ℕ
count packet n = if ltb n 2 then ok (n + 1) else err too_large

decode_func-decode_example : decode_func crypto registry count open_dec arrived 0 ≡ (
  (decode crypto registry open_dec arrived).0 >>= λ packets. fold_result count packets 0,
  (decode crypto registry open_dec arrived).1,
)
decode_func-decode_example = decode_func-decode crypto registry open_dec arrived count 0
