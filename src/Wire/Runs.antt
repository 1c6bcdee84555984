-- ===== src/Wire/Runs.antt =====
-- A Transfer packet, with an address of three letters, on its way, and the theorems about it.
use gophertunnel.Prelude.{List, [], ◌∷◌, true, false, none, some, ◌≡◌, ◌≢◌, refl, arith}
use gophertunnel.Prelude.Results.{ok}
use gophertunnel.Errors.{unknown_packet}
use gophertunnel.Io.Reader.{reader}
use gophertunnel.Io.Writer.{writer}
use gophertunnel.Io.Sim.{Sim}
use gophertunnel.Packet.Header.{IsHeader}
use gophertunnel.Packet.Transfers.{new_gathering_join_info}
use gophertunnel.Packet.Kind.{Packet, transfer, unknown, fresh}
use gophertunnel.Packet.Kind.Marshal.{marshal}
use gophertunnel.Packet.Kind.RoundTrip.{IsPacket, marshal-Sim}
use gophertunnel.Packet.Pool.{lookup, server_pool}
use gophertunnel.Packet.Pool.Known.{lookup-server_pool}
use gophertunnel.Wire.{Sender, Receiver, PacketData, write_packet, parse_data, decode}
use gophertunnel.Wire.RoundTrip.{
  header_of, decode-write_packet, decode-write_unknown, decode-closed,
}

abbrev sample : Packet
sample = transfer (record {
  address = 97 ∷ 98 ∷ 99 ∷ [];
  port = 19132;
  reload_world = true;
  gathering_join_info = record { set = false; val = new_gathering_join_info };
})

sample-IsPacket : IsPacket sample
sample-IsPacket = record { address = omega arith; port = omega arith; gathering_join_info = refl }

abbrev sender : Sender
sender = record {
  hdr = record { packet_id = 0; sender_sub_client = 0; target_sub_client = 0 };
  buffered_send = [];
}

abbrev client : Receiver
client = record {
  pool = server_pool;
  disconnect_on_unknown_packet = true;
  disconnect_on_invalid_packet = true;
  reader_limits = true;
}

header_of-IsHeader : IsHeader (header_of sender 85)
header_of-IsHeader = record {
  packet_id = omega arith;
  sender_sub_client = omega arith;
  target_sub_client = omega arith;
}

custom-IsHeader : IsHeader (header_of sender 1000)
custom-IsHeader = record {
  packet_id = omega arith;
  sender_sub_client = omega arith;
  target_sub_client = omega arith;
}

custom_is_unknown : lookup 1000 server_pool ≡ none
unfolding lookup
custom_is_unknown = refl

marshal-Sim_example : Sim 0 (marshal writer sample) (marshal (reader true) (fresh sample)) sample
marshal-Sim_example = marshal-Sim true sample sample-IsPacket

lookup-server_pool_example : lookup 85 server_pool ≡ some (fresh sample)
lookup-server_pool_example = lookup-server_pool sample sample-IsPacket

decode-write_packet_example :
    (out payload : List _) × (write_packet sender sample
      ≡ ok (record { hdr = header_of sender 85; buffered_send = out ∷ [] }))
    × (parse_data out ≡ ok (record { h = header_of sender 85; full = out; payload = payload }))
    × (decode client (record { h = header_of sender 85; full = out; payload = payload })
        ≡ record { packets = sample ∷ []; error = none; closed = false })
decode-write_packet_example =
    decode-write_packet sender client sample header_of-IsHeader sample-IsPacket
      (lookup-server_pool sample sample-IsPacket)

decode-write_unknown_example :
    (out : List _) × (write_packet sender (unknown 1000 (1 ∷ 2 ∷ []))
      ≡ ok (record { hdr = header_of sender 1000; buffered_send = out ∷ [] }))
    × (parse_data out ≡ ok (record { h = header_of sender 1000; full = out; payload = 1 ∷ 2 ∷ [] }))
    × (decode client (record { h = header_of sender 1000; full = out; payload = 1 ∷ 2 ∷ [] })
        ≡ record { packets = []; error = some unknown_packet; closed = true })
decode-write_unknown_example =
    decode-write_unknown sender client 1000 (1 ∷ 2 ∷ []) custom-IsHeader custom_is_unknown

abbrev stray : PacketData
stray = record { h = header_of sender 1000; full = 1 ∷ []; payload = 1 ∷ [] }

decode-closed_example :
    ((decode client stray).closed ≡ true
      → ((decode client stray).packets ≡ []) × ((decode client stray).error ≢ none))
    × (true ≡ true
        → (decode client stray).error ≢ none
        → ((decode client stray).packets ≡ []) × ((decode client stray).closed ≡ true))
decode-closed_example = decode-closed client stray
