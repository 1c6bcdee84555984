-- ===== src/Wire/Flush.antt =====
-- `Conn.Flush` of minecraft/conn.go on an open Conn, and a batch of packets on its way from one Conn
-- to another. (The spare slice that Flush swaps in holds nothing.)
mod Runs
use gophertunnel.Prelude.{
  ℕ, List, [], ◌∷◌, ◌≤◌, ◌<◌, ◌^◌, false, All, ◌≡◌, ◌≢◌, refl, sym, ap, ◌++◌, ◌∙◌, ◌⊎◌, length,
  ◌==◌, if◌then◌else◌, arith,
}
use gophertunnel.Prelude.Results.{Result, ok, ◌>>=◌}
use gophertunnel.Errors.{Error}
use gophertunnel.Packet.Kind.{Packet}
use gophertunnel.Wire.{Sender, Receiver}
use gophertunnel.Wire.Sequences.{write_all, Decodes, Sendable, decode-write_all}
use gophertunnel.Batch.Walk.{put_packets, maximum_in_batch}
use gophertunnel.Batch.Walk.RoundTrip.{IsEntry}
use gophertunnel.Batch.Encryption.{Crypto, IsCrypto}
use gophertunnel.Batch.Compression.{Registry}
use gophertunnel.Batch.Encoder.{Encoder, encode}
use gophertunnel.Batch.Decoder
use gophertunnel.Batch.Decoder.{Decoder}
use gophertunnel.Batch.RoundTrip.{Paired, decode-encode}

-- What is written to the connection, and the Conn and its Encoder afterwards.
unfoldable pub flush :
    {S : Type 0} → Crypto S → Sender → Encoder S → Result Error (List (List ℕ) × Sender × Encoder S)
flush crypto conn enc =
    let sent = encode crypto enc conn.buffered_send in
    if length conn.buffered_send == 0
    then ok ([], conn, enc)
    else sent >>= λ r. ok (r.0 ∷ [], record conn { buffered_send = [] }, r.1)

has_entries : (entries : List (List ℕ)) → entries ≢ [] → (length entries == 0) ≡ false
has_entries [] h = absurd (h refl)
has_entries (entry ∷ entries) h = ground arith

module _ {S : Type 0} (crypto : Crypto S) (w : IsCrypto crypto) where
  flush-encode :
      (conn : Sender) (enc enc' : Encoder S) (out : List ℕ)
      → conn.buffered_send ≢ []
      → encode crypto enc conn.buffered_send ≡ ok (out, enc')
      → flush crypto conn enc ≡ ok (out ∷ [], record conn { buffered_send = [] }, enc')
  unfolding flush
  flush-encode conn enc enc' out some_left sent =
      let not_empty : (length conn.buffered_send == 0) ≡ false =
        has_entries conn.buffered_send some_left in
      rw (flush, not_empty, sent)

  -- Packets that one Conn wrote to an empty queue and then flushed arrive at the other: Flush
  -- sends them in one batch and empties the queue, Decode splits that batch into entries that
  -- parseData and decode turn into these packets, in order and without an error, and Encoder and
  -- Decoder are left paired for the next flush; for modelled packets with fields and headers that
  -- fit and IDs for which the pool makes their types, at least one of them, with entries that are
  -- not empty, shorter than 2^32, no more than the Decoder allows, within its limit and with a
  -- payload shorter than 2^32 bytes, and on a paired Encoder and Decoder.
  pub decode-flush :
      (registry : Registry) (conn conn' : Sender) (peer : Receiver) (enc : Encoder S)
      (dec : Decoder S) (pks : List Packet)
      → conn.buffered_send ≡ []
      → All (Sendable conn.hdr.sender_sub_client conn.hdr.target_sub_client peer) pks
      → write_all conn pks ≡ ok conn'
      → conn'.buffered_send ≢ []
      → All IsEntry conn'.buffered_send
      → (length conn'.buffered_send ≤ maximum_in_batch) ⊎ (dec.check_packet_limit ≡ false)
      → length (put_packets conn'.buffered_send) ≤ dec.max_decompressed_len
      → length (put_packets conn'.buffered_send) < 2 ^ 32
      → Paired registry enc dec
      → (out : List ℕ) × (enc' : Encoder S) × (dec' : Decoder S) × (entries : List (List ℕ))
        × (flush crypto conn' enc ≡ ok (out ∷ [], record conn' { buffered_send = [] }, enc'))
        × (Decoder.decode crypto registry dec out ≡ (ok entries, dec'))
        × Decodes peer entries pks
        × Paired registry enc' dec'
  decode-flush registry conn conn' peer enc dec pks nothing sendable written some_left entry few
        fits narrow paired =
      let (made, entries, written', queued, decoded) = decode-write_all conn peer pks sendable in
      let same : made ≡ conn' = cc in
      let content : conn'.buffered_send ≡ entries =
        ap (λ (c : Sender). c.buffered_send) (sym same) ∙ (queued ∙ rw nothing) in
      let (out, enc', dec', sent, received, paired') =
        decode-encode crypto w registry enc dec conn'.buffered_send paired entry few fits narrow in
      (
        out,
        enc',
        dec',
        conn'.buffered_send,
        flush-encode conn' enc enc' out some_left sent,
        received,
        rw content decoded,
        paired',
      )
