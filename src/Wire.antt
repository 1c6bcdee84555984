-- ===== src/Wire.antt =====
-- minecraft/packet.go and `Conn.WritePacket` of minecraft/conn.go, over `DefaultProtocol`, whose
-- conversions give the packet itself: a packet as the bytes of one entry of a batch, header and
-- payload, and the packet that such bytes stand for.
pub mod RoundTrip
pub mod Sequences
pub mod Flush
mod Runs
use gophertunnel.Prelude.{
  ℕ, Bool, true, false, Option, none, some, List, [], ◌∷◌, ◌++◌, ◌==◌, if◌then◌else◌, length,
}
use gophertunnel.Prelude.Results.{Result, ok, err, ◌>>=◌}
use gophertunnel.Errors.{Error, unknown_packet, unread_bytes}
use gophertunnel.Io.{Stream}
use gophertunnel.Io.Reader.{reader}
use gophertunnel.Io.Writer.{writer}
use gophertunnel.Packet.Header
use gophertunnel.Packet.Header.{Header}
use gophertunnel.Packet.Kind.{Packet, unknown, id}
use gophertunnel.Packet.Kind.Marshal.{marshal}
use gophertunnel.Packet.Pool.{Pool, lookup}

-- The fields of a Conn that the two directions use. `hdr` keeps the ID of the last packet written.
pub record Sender : Type 0 where
  pub hdr : Header
  pub buffered_send : List (List ℕ)

-- `WritePacket` on an open Conn. A Marshal that panics leaves the Conn as it is but for `hdr`.
unfoldable pub write_packet : Sender → Packet → Result Error Sender
write_packet conn pk =
    let hdr : Header = record conn.hdr { packet_id = id pk } in
    do
      (pk', s) ← marshal writer pk (record { bytes = Header.write hdr; buf = [] })
      ok (record { hdr = hdr; buffered_send = conn.buffered_send ++ s.bytes ∷ [] })

pub record Receiver : Type 0 where
  pub pool : Pool
  pub disconnect_on_unknown_packet : Bool
  pub disconnect_on_invalid_packet : Bool
  pub reader_limits : Bool

pub record PacketData : Type 0 where
  pub h : Header
  pub full : List ℕ
  pub payload : List ℕ

unfoldable pub parse_data : List ℕ → Result Error PacketData
parse_data src = do
  (header, rest) ← Header.read src
  ok (record { h = header; full = src; payload = rest })

-- What `decode` returns, and whether it closed the Conn.
pub record Decoded : Type 0 where
  pub packets : List Packet
  pub error : Option Error
  pub closed : Bool

-- `decode` from the Reader on, which starts with a zeroed `buf`; a panic of Marshal is recovered
-- from, and leaves no packets.
unfoldable pub unmarshal : Receiver → Packet → List ℕ → Decoded
unmarshal conn pk payload =
    let buf : List ℕ = 0 ∷ 0 ∷ 0 ∷ 0 ∷ 0 ∷ 0 ∷ 0 ∷ 0 ∷ [] in
    elim (marshal (reader conn.reader_limits) pk (record { bytes = payload; buf = buf })) [
      | err e ↦ record { packets = []; error = some e; closed = conn.disconnect_on_invalid_packet }
      | ok (pk', s) ↦
          if length s.bytes == 0
          then record { packets = pk' ∷ []; error = none; closed = false }
          else if conn.disconnect_on_invalid_packet
          then record { packets = []; error = some unread_bytes; closed = true }
          else record { packets = pk' ∷ []; error = some unread_bytes; closed = false }
    ]

unfoldable pub decode : Receiver → PacketData → Decoded
unfolding unmarshal
decode conn p = elim (lookup p.h.packet_id conn.pool) [
  | some pk ↦ unmarshal conn pk p.payload
  | none ↦
      if conn.disconnect_on_unknown_packet
      then record { packets = []; error = some unknown_packet; closed = true }
      else unmarshal conn (unknown p.h.packet_id []) p.payload
]
