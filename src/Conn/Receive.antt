-- ===== src/Conn/Receive.antt =====
-- minecraft/conn.go: what becomes of a packet that arrives, `receive` and `handle`, and the queue of
-- deferred packets that `ReadPacket` takes from.
use gophertunnel.Prelude.{
  ℕ, zero, suc, ◌&&◌, not, Option, none, some, List, [], ◌∷◌, ◌++◌, ◌==◌, if◌then◌else◌, length,
}
use gophertunnel.Prelude.Results.{ok, err}
use gophertunnel.Faults.{malformed, undecodable, blocked, closed}
use gophertunnel.Conn.Messages
use gophertunnel.Conn.Messages.{Message, Frame, carries, broken, frame_id, id_disconnect}
use gophertunnel.Conn.State.{
  Env, Action, Done, pure, raise, ◌>>=◌, ◌>>◌, gets, modify, ignore, when, flush, close,
}
use gophertunnel.Conn.Server.{
  one_of, handle_request_network_settings, handle_login, handle_client_to_server_handshake,
  handle_client_cache_status, handle_resource_pack_client_response,
  handle_resource_pack_chunk_request, handle_request_chunk_radius,
  handle_set_local_player_as_initialised,
}
use gophertunnel.Conn.Client.{
  handle_network_settings, handle_server_to_client_handshake, handle_play_status,
  handle_resource_packs_info, handle_resource_pack_data_info, handle_resource_pack_chunk_data,
  handle_resource_pack_stack, handle_start_game, handle_item_registry, handle_chunk_radius_updated,
  handle_dimension_data,
}

-- The `switch` of `handlePacket`.
unfoldable pub dispatch : Env → Message → Action Done
dispatch env (Messages.request_network_settings pk) = handle_request_network_settings env pk
dispatch env (Messages.login pk) = handle_login env pk
dispatch env Messages.client_to_server_handshake = handle_client_to_server_handshake env
dispatch env (Messages.client_cache_status pk) = handle_client_cache_status pk
dispatch env (Messages.resource_pack_client_response pk) =
    handle_resource_pack_client_response env pk
dispatch env (Messages.resource_pack_chunk_request pk) = handle_resource_pack_chunk_request env pk
dispatch env (Messages.request_chunk_radius pk) = handle_request_chunk_radius env pk
dispatch env (Messages.set_local_player_as_initialised pk) =
    handle_set_local_player_as_initialised pk
dispatch env (Messages.network_settings pk) = handle_network_settings env pk
dispatch env (Messages.server_to_client_handshake pk) = handle_server_to_client_handshake env pk
dispatch env (Messages.play_status pk) = handle_play_status pk
dispatch env (Messages.resource_packs_info pk) = handle_resource_packs_info env pk
dispatch env (Messages.resource_pack_data_info pk) = handle_resource_pack_data_info pk
dispatch env (Messages.resource_pack_chunk_data pk) = handle_resource_pack_chunk_data pk
dispatch env (Messages.resource_pack_stack pk) = handle_resource_pack_stack env pk
dispatch env (Messages.start_game pk) = handle_start_game pk
dispatch env (Messages.item_registry items) = handle_item_registry items
dispatch env (Messages.chunk_radius_updated pk) = handle_chunk_radius_updated pk
dispatch env (Messages.dimension_data definitions) = handle_dimension_data definitions
dispatch env (Messages.disconnect pk) = pure tt
dispatch env (Messages.other packet_id payload) = pure tt

-- `handlePacket`, which flushes when the handler has returned, also with an error.
unfoldable pub handle_packet : Env → Message → Action Done
handle_packet env pk s = let handled = dispatch env pk s in (handled.0, (ignore flush handled.1).1)

-- `decode` of a packet with a header.
unfoldable pub decode_frame : Frame → Action Message
decode_frame (carries pk) = pure pk
decode_frame (broken packet_id closes) = when closes close >> raise undecodable
decode_frame Messages.malformed = raise malformed

unfoldable pub defer_packet : Frame → Action Done
defer_packet f = modify (λ s. record s { deferred_packets = s.deferred_packets ++ f ∷ [] })

unfoldable pub handle : Env → Frame → Action Done
handle env f = do
  ids ← gets (λ s. s.expected_ids)
  if one_of (frame_id f) ids then (decode_frame f >>= handle_packet env) else defer_packet f

-- `receive` of a packet with a header.
unfoldable pub receive_packet : Env → Frame → Action Done
receive_packet env f = if frame_id f == id_disconnect then decode_frame f >> close else do
  deferring ← gets (λ s. s.logged_in && not s.waiting_for_spawn)
  if deferring then defer_packet f else handle env f

unfoldable pub receive : Env → Frame → Action Done
receive env (carries pk) = receive_packet env (carries pk)
receive env (broken packet_id closes) = receive_packet env (broken packet_id closes)
receive env Messages.malformed = raise malformed

abbrev pub take_from : List Frame → Action (Option Frame)
take_from [] s = (ok none, s)
take_from (f ∷ fs) s = (ok (some f), record s { deferred_packets = fs })

unfoldable pub take_deferred_packet : Action (Option Frame)
take_deferred_packet s = take_from s.deferred_packets s

-- A packet taken by `ReadPacket`: one that does not decode is logged, and the next is read.
abbrev pub deliver : Frame → Action Message → Action Message
deliver (carries pk) next = pure pk
deliver (broken packet_id closes) next = when closes close >> next
deliver Messages.malformed next = next

-- What the select of `readPacketData` does where no packet is there: it waits, or finds the Conn closed.
abbrev pub wait_packet : Action Message
wait_packet s = if s.closed then (err closed, s) else (err blocked, s)

abbrev pub read_next : Option Frame → Action Message → Action Message
read_next none next = wait_packet
read_next (some f) next = deliver f next

-- The loop of `ReadPacket` for `n` rounds. It has no more rounds than packets are deferred.
abbrev pub read_loop : ℕ → Action Message
read_loop zero = wait_packet
read_loop (suc n) = take_deferred_packet >>= λ o. read_next o (read_loop n)

unfoldable pub read_packet : Action Message
read_packet s = read_loop (length s.deferred_packets) s
