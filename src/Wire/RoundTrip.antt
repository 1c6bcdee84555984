-- ===== src/Wire/RoundTrip.antt =====
-- A packet written is the packet decoded at the other end.
use gophertunnel.Prelude.{
  ℕ, ◌≢◌, true, false, refl, arith, if◌then◌else◌, List, [], ◌∷◌, ◌++◌, none, some, ◌≡◌, sym,
  append-nil,
}
use gophertunnel.Prelude.Results.{ok}
use gophertunnel.Errors.{unknown_packet}
use gophertunnel.Wire.{Sender, Receiver, PacketData, write_packet, parse_data, decode, unmarshal}
use gophertunnel.Io.Sim.{Sim}
use gophertunnel.Io.Reader
use gophertunnel.Io.Reader.{reader}
use gophertunnel.Io.Writer
use gophertunnel.Io.Writer.{writer}
use gophertunnel.Packet.Header.{Header, IsHeader, write, read-write}
use gophertunnel.Packet.Kind.{Packet, unknown, id, fresh}
use gophertunnel.Packet.Kind.Marshal.{marshal}
use gophertunnel.Packet.Kind.RoundTrip.{IsPacket, marshal-Sim}
use gophertunnel.Packet.Pool.{lookup}

abbrev pub header_of : Sender → ℕ → Header
header_of conn i = record conn.hdr { packet_id = i }

unmarshal-emitted :
    (peer : Receiver) (pk : Packet)
    (sim : Sim 0 (marshal writer pk) (marshal (reader peer.reader_limits) (fresh pk)) pk)
    → unmarshal peer (fresh pk) sim.emitted
      ≡ record { packets = pk ∷ []; error = none; closed = false }
unfolding unmarshal
unmarshal-emitted peer pk sim =
    let (buf, e) = sim.reads [] (0 ∷ 0 ∷ 0 ∷ 0 ∷ 0 ∷ 0 ∷ 0 ∷ 0 ∷ []) in
    rw (sym (append-nil sim.emitted), unmarshal, e)

-- A packet of any of the 58 modelled types, with fields and a header that fit and an ID for which
-- the receiver's pool makes that type, is queued by WritePacket as one more entry; parseData and
-- decode turn those bytes into that packet alone, without an error and without closing the Conn,
-- whatever the receiver's settings.
pub decode-write_packet :
    (conn : Sender) (peer : Receiver) (pk : Packet)
    → IsHeader (header_of conn (id pk))
    → IsPacket pk
    → lookup (id pk) peer.pool ≡ some (fresh pk)
    → (out payload : List ℕ) × (write_packet conn pk
        ≡ ok (record {
          hdr = header_of conn (id pk);
          buffered_send = conn.buffered_send ++ out ∷ [];
        }))
      × (parse_data out ≡ ok (record { h = header_of conn (id pk); full = out; payload = payload }))
      × (decode peer (record { h = header_of conn (id pk); full = out; payload = payload })
          ≡ record { packets = pk ∷ []; error = none; closed = false })
unfolding write_packet parse_data decode
decode-write_packet conn peer pk wh wp known =
    let sim = marshal-Sim peer.reader_limits pk wp in
    let out = write (header_of conn (id pk)) ++ sim.emitted in
    (
      out,
      sim.emitted,
      rw (sim.writes _),
      rw (read-write _ sim.emitted wh),
      rw (decode, known) (unmarshal-emitted peer pk sim),
    )

-- An Unknown packet, with a header that fits and an ID outside the receiver's pool, arrives as
-- Unknown with its payload unchanged, or, where unknown packets disconnect, closes the Conn with
-- an error and no packets.
pub decode-write_unknown :
    (conn : Sender) (peer : Receiver) (i : ℕ) (content : List ℕ)
    → IsHeader (header_of conn i)
    → lookup i peer.pool ≡ none
    → (out : List ℕ) × (write_packet conn (unknown i content)
        ≡ ok (record { hdr = header_of conn i; buffered_send = conn.buffered_send ++ out ∷ [] }))
      × (parse_data out ≡ ok (record { h = header_of conn i; full = out; payload = content }))
      × (decode peer (record { h = header_of conn i; full = out; payload = content }) ≡ (
          if peer.disconnect_on_unknown_packet
          then record { packets = []; error = some unknown_packet; closed = true }
          else record { packets = unknown i content ∷ []; error = none; closed = false }))
unfolding write_packet parse_data decode unmarshal marshal Reader.bytes Writer.bytes
decode-write_unknown conn peer i content wh absent =
    (write (header_of conn i) ++ content, refl, rw (read-write _ content wh), rw (decode, absent))

-- Whatever arrives, decode closes the Conn only with an error and no packets; and where invalid
-- packets disconnect, any error comes without packets and with the Conn closed.
pub decode-closed :
    (peer : Receiver) (p : PacketData)
    → ((decode peer p).closed ≡ true
        → ((decode peer p).packets ≡ []) × ((decode peer p).error ≢ none))
      × (peer.disconnect_on_invalid_packet ≡ true
          → (decode peer p).error ≢ none
          → ((decode peer p).packets ≡ []) × ((decode peer p).closed ≡ true))
unfolding decode unmarshal
decode-closed peer p = ground arith
