-- ===== src/Batch/Decoder/Outcomes.antt =====
-- The outcomes of a Decoder on whatever bytes arrive.
use gophertunnel.Prelude.{
  ℕ, Bool, false, if◌then◌else◌, ◌≤◌, true, List, [], length, All, ◌≡◌, ap, sym, ◌∙◌, arith, ◌==◌,
  not, bytes_equal, take, drop, min,
}
use gophertunnel.Prelude.Results.{Result, ok, err, ◌>>=◌, >>=-ok, >>=-assoc, >>=-cong, fold_result}
use gophertunnel.Errors.{Error, bad_header}
use gophertunnel.Batch.Walk.{maximum_in_batch}
use gophertunnel.Batch.Walk.Limits.{walk_batch-bounded, walk_batch-dispatch}
use gophertunnel.Batch.Encryption.{Crypto}
use gophertunnel.Batch.Compression.{Registry}
use gophertunnel.Batch.Decoder.{
  Decoder, check_size, read_batch, decode, decode_func, decompress_batch, decrypt_batch,
}

module _ {S : Type 0} (crypto : Crypto S) (registry : Registry) (dec : Decoder S)
    (src : List ℕ) where
  -- On every input and with every callback, DecodeFunc is Decode followed by the callback on each
  -- packet in turn: a malformed batch gives its error before the first call.
  pub decode_func-decode :
      {A : Type 0} (f : List ℕ → A → Result Error A) (a : A)
      → decode_func crypto registry f dec src a ≡ (
        (decode crypto registry dec src).0 >>= λ packets. fold_result f packets a,
        (decode crypto registry dec src).1,
      )
  unfolding decode decode_func
  decode_func-decode f a =
      ap (λ r. (r, (read_batch crypto registry dec src).1))
        (>>=-cong (read_batch crypto registry dec src).0
            (λ src. walk_batch-dispatch dec.check_packet_limit f src a)
          ∙ sym (>>=-assoc (read_batch crypto registry dec src).0 _ _))

  -- Whatever bytes arrive, the packets that Decode returns are not empty, and at most 812 unless
  -- that check was disabled.
  pub decode-bounded :
      (packets : List (List ℕ))
      → (decode crypto registry dec src).0 ≡ ok packets
      → All (λ packet. 1 ≤ length packet) packets
        × (dec.check_packet_limit ≡ true → length packets ≤ maximum_in_batch)
  unfolding decode
  decode-bounded packets h =
      let (batch, _, walked) = >>=-ok _ (read_batch crypto registry dec src).0 h in
      walk_batch-bounded dec.check_packet_limit batch packets walked

  check_size-ok :
      (batch out : List ℕ) → check_size dec batch ≡ ok out → length out ≤ dec.max_decompressed_len
  unfolding check_size
  check_size-ok batch out h = ground arith

  -- The two early returns of `readBatch` give no payload or an error.
  checked_last :
      (empty bad : Bool) (plain : Result Error (List ℕ)) (after : Decoder S) (batch : List ℕ)
      → (if◌then◌else◌ {A = Result Error (List ℕ) × Decoder S} empty
          (ok [], dec)
          (if bad then (err bad_header, dec) else (plain >>= check_size dec, after))).0
        ≡ ok batch
      → length batch ≤ dec.max_decompressed_len
  checked_last true bad plain after batch h =
      let none_left : [] ≡ batch = cc in rw (sym none_left) (omega arith)
  checked_last false true plain after batch h = cc
  checked_last false false plain after batch h =
      let (out, _, checked) = >>=-ok (check_size dec) plain h in check_size-ok out batch checked

  -- The payload of an accepted batch is within the decoder's decompression limit, compressed or
  -- not.
  pub read_batch-fits :
      (batch : List ℕ)
      → (read_batch crypto registry dec src).0 ≡ ok batch
      → length batch ≤ dec.max_decompressed_len
  unfolding read_batch
  read_batch-fits batch h =
      let opened = decrypt_batch crypto dec (drop (length dec.header) src) in
      checked_last (length src == 0)
        (not (bytes_equal (take (min (length dec.header) (length src)) src) dec.header))
        (opened.0 >>= decompress_batch registry dec) opened.1 batch
        (rw (>>=-assoc opened.0 (decompress_batch registry dec) (check_size dec)) h)
