-- ===== src/Wire/Sequences.antt =====
-- Several packets, one after another: what WritePacket queues between two flushes.
use gophertunnel.Prelude.{
  ℕ, List, [], ◌∷◌, ◌++◌, false, none, some, All, ◌≡◌, ◌∙◌, refl, append_assoc, append-nil,
}
use gophertunnel.Prelude.Results.{Result, ok, ◌>>=◌}
use gophertunnel.Errors.{Error}
use gophertunnel.Packet.Header.{IsHeader}
use gophertunnel.Packet.Kind.{Packet, id, fresh}
use gophertunnel.Packet.Kind.RoundTrip.{IsPacket}
use gophertunnel.Packet.Pool.{lookup}
use gophertunnel.Wire.{Sender, Receiver, PacketData, Decoded, write_packet, parse_data, decode}
use gophertunnel.Wire.RoundTrip.{header_of, decode-write_packet}

abbrev pub write_all : Sender → List Packet → Result Error Sender
write_all conn [] = ok conn
write_all conn (pk ∷ pks) = write_packet conn pk >>= λ conn'. write_all conn' pks

-- `parseData` and `decode` of one entry.
unfoldable pub read_entry : Receiver → List ℕ → Result Error Decoded
read_entry peer entry = parse_data entry >>= λ p. ok (decode peer p)

-- The entries decode, in order, to these packets, each without an error.
abbrev pub Decodes : Receiver → List (List ℕ) → List Packet → Type 0
Decodes peer [] [] = Unit
Decodes peer (entry ∷ entries) (pk ∷ pks) =
    (read_entry peer entry ≡ ok (record { packets = pk ∷ []; error = none; closed = false }))
    × Decodes peer entries pks
Decodes peer _ _ = ⊥

-- A packet that a Conn with these sub client IDs can send and `peer` knows.
pub record Sendable (sender target : ℕ) (peer : Receiver) (pk : Packet) : Type 0 where
  pub header :
      IsHeader
        (record { packet_id = id pk; sender_sub_client = sender; target_sub_client = target })
  pub fields : IsPacket pk
  pub known : lookup (id pk) peer.pool ≡ some (fresh pk)

read_entry_lem :
    (peer : Receiver) (entry : List ℕ) {p : PacketData} {d : Decoded}
    → parse_data entry ≡ ok p
    → decode peer p ≡ d
    → read_entry peer entry ≡ ok d
unfolding read_entry
read_entry_lem peer entry parsed decoded = rw (read_entry, parsed, decoded)

-- Modelled packets with fields and headers that fit and IDs for which the pool makes their types,
-- written one after another, add one entry each to the queue in that order, and each entry decodes
-- to its packet alone without an error.
pub decode-write_all :
    (conn : Sender) (peer : Receiver) (pks : List Packet)
    → All (Sendable conn.hdr.sender_sub_client conn.hdr.target_sub_client peer) pks
    → (conn' : Sender) × (entries : List (List ℕ)) × (write_all conn pks ≡ ok conn')
      × (conn'.buffered_send ≡ conn.buffered_send ++ entries)
      × Decodes peer entries pks
decode-write_all conn peer [] h = (conn, [], refl, rw append-nil, tt)
decode-write_all conn peer (pk ∷ pks) (p, h) =
    let (out, payload, written, parsed, decoded) =
      decode-write_packet conn peer pk p.header p.fields p.known in
    let next : Sender = record {
      hdr = header_of conn (id pk);
      buffered_send = conn.buffered_send ++ out ∷ [];
    } in
    let (conn', entries, rest, queued, all) = decode-write_all next peer pks h in
    (
      conn',
      out ∷ entries,
      rw written rest,
      queued ∙ rw append_assoc,
      (read_entry_lem peer out parsed decoded, all),
    )
