-- ===== src/Wire/Flush/Runs.antt =====
-- A RequestNetworkSettings packet in a batch of its own, without compression and encryption.
use gophertunnel.Prelude.{
  ℕ, ◌^◌, ◌≤◌, ◌<◌, List, [], ◌∷◌, length, true, false, none, All, ◌≡◌, ◌≢◌, refl, arith, inl,
}
use gophertunnel.Prelude.Results.{ok}
use gophertunnel.Varint.{write_loop, write_varuint32}
use gophertunnel.Io.{replicate}
use gophertunnel.Io.Writer
use gophertunnel.Io.Writer.{le_put}
use gophertunnel.Packet.Header
use gophertunnel.Packet.Login.{marshal_request_network_settings}
use gophertunnel.Packet.Kind.{Packet, request_network_settings}
use gophertunnel.Packet.Kind.Marshal.{marshal}
use gophertunnel.Packet.Kind.RoundTrip.{IsPacket}
use gophertunnel.Packet.Pool.{server_pool}
use gophertunnel.Packet.Pool.Known.{lookup-server_pool}
use gophertunnel.Wire.{Sender, Receiver, write_packet}
use gophertunnel.Wire.Sequences.{write_all, Decodes, Sendable, decode-write_all}
use gophertunnel.Wire.Flush.{flush, decode-flush}
use gophertunnel.Batch.Walk.{put_packets, put_varuint32}
use gophertunnel.Batch.Walk.RoundTrip.{IsEntry}
use gophertunnel.Batch.Encryption.{Crypto, IsCrypto}
use gophertunnel.Batch.Cfb8.{cfb8, cfb8-IsCrypto}
use gophertunnel.Batch.Compression.{nop_compression}
use gophertunnel.Batch.Encoder.{Encoder}
use gophertunnel.Batch.Decoder
use gophertunnel.Batch.Decoder.{Decoder}
use gophertunnel.Batch.RoundTrip.{uncompressed, Paired}

abbrev request : Packet
request = request_network_settings (record { client_protocol = 800 })

request-IsPacket : IsPacket request
request-IsPacket = record { client_protocol = omega arith }

abbrev client : Sender
client = record {
  hdr = record { packet_id = 0; sender_sub_client = 0; target_sub_client = 0 };
  buffered_send = [];
}

abbrev queue : List (List ℕ)
queue = (0xc1 ∷ 1 ∷ 0 ∷ 0 ∷ 3 ∷ 32 ∷ []) ∷ []

abbrev client' : Sender
client' = record {
  hdr = record { packet_id = 193; sender_sub_client = 0; target_sub_client = 0 };
  buffered_send = queue;
}

abbrev server : Receiver
server = record {
  pool = server_pool;
  disconnect_on_unknown_packet = true;
  disconnect_on_invalid_packet = true;
  reader_limits = true;
}

abbrev requests : List Packet
requests = request ∷ []

write_all-requests : write_all client requests ≡ ok client'
unfolding write_packet marshal marshal_request_network_settings Writer.be_int32 le_put Header.write
    Header.pack write_varuint32 write_loop
write_all-requests = refl

requests-Sendable : All (Sendable 0 0 server) requests
requests-Sendable = (
  record {
    header = record {
      packet_id = omega arith;
      sender_sub_client = omega arith;
      target_sub_client = omega arith;
    };
    fields = request-IsPacket;
    known = lookup-server_pool request request-IsPacket;
  },
  tt,
)

some_queue : queue ≢ []
some_queue e = cc

queue-IsEntry : All IsEntry queue
queue-IsEntry = ((omega arith, omega arith), tt)

queue_fits : length (put_packets queue) ≤ 100
unfolding put_packets put_varuint32 write_loop
queue_fits = omega arith

abbrev crypto : Crypto (List ℕ)
crypto = cfb8 (λ reg. reg) (λ src. replicate 32 7)

crypto-IsCrypto : IsCrypto crypto
crypto-IsCrypto = cfb8-IsCrypto (λ reg. reg) (λ src. replicate 32 7) (λ src. refl)

abbrev enc : Encoder (List ℕ)
enc = record {
  header = 0xfe ∷ [];
  compression_threshold = 0;
  compression = none;
  legacy_compression = false;
  encryption = none;
  disable_encryption = false;
}

abbrev dec : Decoder (List ℕ)
dec = record {
  header = 0xfe ∷ [];
  decompress = false;
  compression = nop_compression;
  legacy_compression = false;
  max_decompressed_len = 100;
  encryption = none;
  disable_encryption = false;
  check_packet_limit = true;
}

enc-Paired : Paired [] enc dec
enc-Paired = record {
  header = refl;
  some_header = omega arith;
  encryption = refl;
  one_byte = λ on. refl;
  compression = uncompressed refl refl;
}

queue_narrow : length (put_packets queue) < 2 ^ 32
queue_narrow = omega (arith, queue_fits)

decode-flush_example :
    (out : List ℕ) × (enc' : Encoder (List ℕ)) × (dec' : Decoder (List ℕ)) × (entries : List
      (List ℕ))
    × (flush crypto client' enc ≡ ok (out ∷ [], record client' { buffered_send = [] }, enc'))
    × (Decoder.decode crypto [] dec out ≡ (ok entries, dec'))
    × Decodes server entries requests
    × Paired [] enc' dec'
decode-flush_example =
    decode-flush crypto crypto-IsCrypto [] client client' server enc dec requests refl
      requests-Sendable write_all-requests some_queue queue-IsEntry (inl (omega arith)) queue_fits
      queue_narrow enc-Paired

decode-write_all_example :
    (conn : Sender) × (entries : List (List ℕ)) × (write_all client requests ≡ ok conn)
    × (conn.buffered_send ≡ entries)
    × Decodes server entries requests
decode-write_all_example = decode-write_all client server requests requests-Sendable
