-- ===== src/Lib.antt =====
-- gophertunnel, a Go library for Minecraft connections: the path of a packet between two Conns. A
-- packet is marshalled by an IO (a Writer), put behind its header, queued with others in a batch,
-- compressed, encrypted and sent; the other side deciphers, checks, decompresses and splits the
-- batch, looks the packet's ID up in its pool and unmarshals it with the other IO (a Reader).
--
-- Prelude, Errors, Bits    helpers; Bits has the facts on `&`, `|` and `^` that the code uses
-- Varint    minecraft/protocol/varint.go
-- Io    minecraft/protocol/io.go: the interface IO as a record of functions (Io.Io) with the
--   instances `writer` (Io.Writer: writer.go, writer_little_endian.go) and `reader` (Io.Reader:
--   reader.go, reader_little_endian.go). Io.Sim is the relation between the two that every Marshal
--   function is proved to keep; Io.Prims and Io.Values prove it of the methods and of the helpers.
-- Packet    minecraft/protocol/packet: a file for each group of packets, with a record for each
--   struct and a function for its Marshal method, which both instances run; Packet.Kind puts them
--   together (id.go, the interface Packet), Packet.Pool is pool.go and Packet.Header the header.
-- Wire    WritePacket of minecraft/conn.go, and minecraft/packet.go; Wire.Sequences takes several packets
--   at once, and Wire.Flush is Flush of minecraft/conn.go, where Wire and Batch meet
-- Batch    minecraft/protocol/packet/encoder.go (Batch.Encoder), decoder.go (Batch.Decoder, and
--   Batch.Walk for the payload), encryption.go (Batch.Encryption, Batch.Cfb8) and compression.go
--   (Batch.Compression)
--
-- Numbers are natural numbers. A value of w bits is a number below 2 ^ w, a signed one is its two's
-- complement pattern, a float is its bit pattern, and a string or a byte slice is a list of bytes.
-- Conversions to a narrower type are written as remainders. A method that changes its receiver
-- returns the new one; an error returned and a panic recovered from are values of Errors.Error.
--
-- Loops: the loops of varint.go and readPacketLength run a number of rounds that the code fixes. The
-- loop of WriteVaruint32 has as many rounds as its number, which is enough since each round divides
-- it by 128. The loop of walkBatch has as many rounds as there are bytes, which is enough since each
-- round takes at least one.
--
-- Parameters: the stream cipher and the hash (crypto/cipher, crypto/sha256), whose laws are
-- Batch.Encryption.IsCrypto; the compression algorithms (klauspost/compress), whose laws are
-- Batch.Compression.IsCompression; the block function of CFB8 (crypto/aes), of which nothing is
-- assumed. A source of bytes is a bytes.Buffer, as parseData makes it.
--
-- A Conn (minecraft/conn.go) is modelled above that path: Conn/Messages.antt has the packets of the
-- login and spawn sequence, Conn/State.antt the Conn, its configuration and `expect`,
-- `WritePacket`, `Flush` and `close`, Conn/Server.antt and Conn/Client.antt the handlers of a
-- listener's and of a dialer's Conn, the latter with the rounds of the goroutines that download
-- packs as steps of their own (download_step), Conn/Receive.antt `receive`, `handle`,
-- `handlePacket` and `ReadPacket`, and Conn/Events.antt the runs of a listener's Conn
-- (minecraft/listener.go). A handler is an Action: a result or an error of Faults.antt, and the
-- Conn it leaves. Conn/Logic.antt, Conn/Late.antt, Conn/Early.antt, Conn/Stages.antt,
-- Conn/Admission.antt, Conn/Dispatch.antt and Conn/Session.antt follow a login through its stages;
-- Conn/Order.antt is about the packets for the user and Conn/Downloads.antt about the goroutines of
-- the downloads. What the code calls of other packages in these handlers is a field of
-- Conn.State.Env: `login.Parse`, the checks of keys and players, the tokens, the cache,
-- `resource.Read` and `uuid.UUID.String`.
-- Resource packs are in Packs.antt (minecraft/resource/pack.go, resource_pack_delivery.go,
-- resource_pack_cache.go) and Packs/Queue.antt (resource_pack_queue.go), with proofs in
-- Packs/Names.antt, Packs/Requests.antt, Packs/Transfer.antt and Packs/Delivery.antt. The exchange
-- of a pack has as many rounds as the pack has bytes, which is enough since a chunk has at least
-- one. ReadPacket's loop has as many rounds as packets are deferred, which is enough since each
-- round takes one.
--
-- Not modelled: the other packets, NBT, items and entity metadata; a Conn's locks, deadlines and
-- callbacks, and its delays; pooled buffers; files, sockets, HTTP and JSON.
pub mod Prelude
pub mod Bits
pub mod Errors
pub mod Faults
pub mod Varint
pub mod Io
pub mod Packet
pub mod Wire
pub mod Batch
pub mod Packs
pub mod Conn
