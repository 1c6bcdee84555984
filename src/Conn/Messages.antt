-- ===== src/Conn/Messages.antt =====
-- The packets of the login and spawn sequence, which minecraft/conn.go handles or writes. What the
-- handlers do not look into is kept as bytes. `other` is any packet without a handler.
use gophertunnel.Prelude.{ℕ, Bool, List}
use gophertunnel.Packet.Login.{
  RequestNetworkSettings, NetworkSettings, Login, PlayStatus, ServerToClientHandshake,
  ClientCacheStatus,
}
use gophertunnel.Packet.Spawning.{
  RequestChunkRadius, ChunkRadiusUpdated, SetLocalPlayerAsInitialised,
}
use gophertunnel.Packet.PackInfo.{ResourcePacksInfo, ResourcePackDataInfo}
use gophertunnel.Packet.PackTransfer.{
  ResourcePackChunkData, ResourcePackChunkRequest, ResourcePackStack,
}

-- packet/resource_pack_client_response.go
pub record ResourcePackClientResponse : Type 0 where
  pub response : ℕ
  pub packs_to_download : List (List ℕ)

abbrev pub pack_response_refused : ℕ
pack_response_refused = 0

abbrev pub pack_response_send_packs : ℕ
pack_response_send_packs = 1

abbrev pub pack_response_all_packs_downloaded : ℕ
pack_response_all_packs_downloaded = 2

abbrev pub pack_response_completed : ℕ
pack_response_completed = 3

-- packet/disconnect.go
pub record Disconnect : Type 0 where
  pub reason : ℕ
  pub message : List ℕ

-- protocol/item.go: the `Name` and the `RuntimeID`, a pattern of 16 bits, of an ItemEntry.
pub record ItemEntry : Type 0 where
  pub name : List ℕ
  pub runtime_id : ℕ

-- game_data.go. `settings` stands for the fields that go to and come from StartGame unread.
pub record GameData : Type 0 where
  pub world_name : List ℕ
  pub entity_runtime_id : ℕ
  pub settings : List ℕ
  pub dimensions : List (List ℕ)
  pub items : List ItemEntry
  pub chunk_radius : ℕ

-- packet/start_game.go
pub record StartGame : Type 0 where
  pub world_name : List ℕ
  pub entity_runtime_id : ℕ
  pub settings : List ℕ

pub data Message : Type 0 where
  request_network_settings : RequestNetworkSettings → Message
  login : Login → Message
  client_to_server_handshake : Message
  client_cache_status : ClientCacheStatus → Message
  resource_pack_client_response : ResourcePackClientResponse → Message
  resource_pack_chunk_request : ResourcePackChunkRequest → Message
  request_chunk_radius : RequestChunkRadius → Message
  set_local_player_as_initialised : SetLocalPlayerAsInitialised → Message
  network_settings : NetworkSettings → Message
  server_to_client_handshake : ServerToClientHandshake → Message
  play_status : PlayStatus → Message
  resource_packs_info : ResourcePacksInfo → Message
  resource_pack_data_info : ResourcePackDataInfo → Message
  resource_pack_chunk_data : ResourcePackChunkData → Message
  resource_pack_stack : ResourcePackStack → Message
  start_game : StartGame → Message
  item_registry : List ItemEntry → Message
  chunk_radius_updated : ChunkRadiusUpdated → Message
  dimension_data : List (List ℕ) → Message
  disconnect : Disconnect → Message
  other : (packet_id : ℕ) (payload : List ℕ) → Message

-- The method ID.
abbrev pub id : Message → ℕ
id (request_network_settings pk) = 193
id (login pk) = 1
id client_to_server_handshake = 4
id (client_cache_status pk) = 129
id (resource_pack_client_response pk) = 8
id (resource_pack_chunk_request pk) = 84
id (request_chunk_radius pk) = 69
id (set_local_player_as_initialised pk) = 113
id (network_settings pk) = 143
id (server_to_client_handshake pk) = 3
id (play_status pk) = 2
id (resource_packs_info pk) = 6
id (resource_pack_data_info pk) = 82
id (resource_pack_chunk_data pk) = 83
id (resource_pack_stack pk) = 7
id (start_game pk) = 11
id (item_registry items) = 162
id (chunk_radius_updated pk) = 70
id (dimension_data definitions) = 180
id (disconnect pk) = 5
id (other packet_id payload) = packet_id

-- A packet that arrived, as `parseData` and `decode` make it: the packet itself, a header in front of
-- a payload that does not decode (on an unknown packet, or an invalid one, `decode` may close the
-- Conn), or bytes without a header. With the default protocol `decode` gives one packet at most.
pub data Frame : Type 0 where
  carries : Message → Frame
  broken : (packet_id : ℕ) (closes : Bool) → Frame
  malformed : Frame

-- `h.PacketID`
abbrev pub frame_id : Frame → ℕ
frame_id (carries m) = id m
frame_id (broken packet_id closes) = packet_id
frame_id malformed = 0

-- The IDs by name (packet/id.go).
abbrev pub id_login : ℕ
id_login = 1

abbrev pub id_play_status : ℕ
id_play_status = 2

abbrev pub id_server_to_client_handshake : ℕ
id_server_to_client_handshake = 3

abbrev pub id_client_to_server_handshake : ℕ
id_client_to_server_handshake = 4

abbrev pub id_disconnect : ℕ
id_disconnect = 5

abbrev pub id_resource_packs_info : ℕ
id_resource_packs_info = 6

abbrev pub id_resource_pack_stack : ℕ
id_resource_pack_stack = 7

abbrev pub id_resource_pack_client_response : ℕ
id_resource_pack_client_response = 8

abbrev pub id_start_game : ℕ
id_start_game = 11

abbrev pub id_request_chunk_radius : ℕ
id_request_chunk_radius = 69

abbrev pub id_chunk_radius_updated : ℕ
id_chunk_radius_updated = 70

abbrev pub id_resource_pack_data_info : ℕ
id_resource_pack_data_info = 82

abbrev pub id_resource_pack_chunk_data : ℕ
id_resource_pack_chunk_data = 83

abbrev pub id_resource_pack_chunk_request : ℕ
id_resource_pack_chunk_request = 84

abbrev pub id_set_local_player_as_initialised : ℕ
id_set_local_player_as_initialised = 113

abbrev pub id_client_cache_status : ℕ
id_client_cache_status = 129

abbrev pub id_network_settings : ℕ
id_network_settings = 143

abbrev pub id_item_registry : ℕ
id_item_registry = 162

abbrev pub id_dimension_data : ℕ
id_dimension_data = 180

abbrev pub id_request_network_settings : ℕ
id_request_network_settings = 193
