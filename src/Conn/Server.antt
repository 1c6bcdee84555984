-- ===== src/Conn/Server.antt =====
-- minecraft/conn.go: the handlers of a listener's Conn, and `StartGameContext` up to its wait.
use gophertunnel.Prelude.{
  ℕ, ◌%◌, ◌^◌, Bool, true, false, ◌&&◌, ◌||◌, not, Option, none, some, List, [], ◌∷◌, ◌++◌, map,
  ltb, leb, ◌==◌, if◌then◌else◌, length,
}
use gophertunnel.Prelude.Results.{ok}
use gophertunnel.Faults.{
  incompatible_protocol, unknown_response, bad_login, not_authenticated, bad_public_key,
  bad_server_token, no_encryption_key, no_packs, bad_chunk_radius, runtime_id_mismatch, misused,
}
use gophertunnel.Packs.{Pack, encrypted}
use gophertunnel.Packs.Queue.{empty_queue, request, next_pack, all_downloaded, serve}
use gophertunnel.Packet.Login.{
  RequestNetworkSettings, Login, ClientCacheStatus, new_network_settings,
}
use gophertunnel.Packet.Spawning.{RequestChunkRadius, SetLocalPlayerAsInitialised}
use gophertunnel.Packet.PackInfo.{
  ResourcePackDataInfo, TexturePackInfo, new_texture_pack_info, new_resource_packs_info,
}
use gophertunnel.Packet.PackTransfer.{
  ResourcePackChunkRequest, StackResourcePack, new_resource_pack_stack,
}
use gophertunnel.Conn.Messages.{
  Message, ResourcePackClientResponse, GameData, play_status, network_settings, disconnect,
  server_to_client_handshake, resource_packs_info, resource_pack_stack, resource_pack_data_info,
  resource_pack_chunk_data, chunk_radius_updated, start_game, item_registry, dimension_data, other,
  pack_response_refused, pack_response_send_packs, pack_response_all_packs_downloaded,
  pack_response_completed, id_login, id_client_to_server_handshake,
  id_resource_pack_client_response, id_request_chunk_radius, id_resource_pack_chunk_request,
  id_set_local_player_as_initialised, id_client_cache_status,
}
use gophertunnel.Conn.State.{
  Env, Conn, AuthResult, Exempted, Action, Done, pure, raise, ◌>>=◌, ◌>>◌, gets, modify, ignore,
  when, expect, write_packet, flush, close, close_spawn,
}
use gophertunnel.Conn.Packs.{with_queue, exempted_packs, find_shield}

-- The constants of packet/play_status.go that the two sides use.
abbrev pub login_success : ℕ
login_success = 0

abbrev pub login_failed_client : ℕ
login_failed_client = 1

abbrev pub login_failed_server : ℕ
login_failed_server = 2

abbrev pub player_spawn : ℕ
player_spawn = 3

abbrev pub current_protocol : ℕ
current_protocol = 2225

abbrev pub one_of : ℕ → List ℕ → Bool
one_of n [] = false
one_of n (m ∷ ms) = let rest = one_of n ms in if m == n then true else rest

unfoldable pub select_protocol : Env → ℕ → Action Bool
select_protocol env protocol_id s =
    if one_of protocol_id env.accepted_proto
    then (ok true, record s { proto = protocol_id })
    else (ok false, s)

-- The answer to a protocol that is not accepted, an int32 by its pattern.
unfoldable pub refuse_protocol : ℕ → Action Done
refuse_protocol protocol_id =
    let newer = ltb current_protocol protocol_id && ltb protocol_id (2 ^ 31) in
    do
      _ ← ignore (
          write_packet (
            play_status
              (record { status = if newer then login_failed_server else login_failed_client })))
      raise incompatible_protocol

-- `enc.EnableCompression` and `dec.EnableCompression`
abbrev pub enable_compression : ℕ → ℕ → Conn → Conn
enable_compression compression threshold s = record s {
  enc = record s.enc { compression = some compression; threshold = threshold; legacy = false };
  dec = record s.dec { compression = some compression; threshold = 0; legacy = false };
}

-- `conn.compressionSelector`
abbrev pub selected : Env → Conn → ℕ
selected env s = elim (env.compression_selector s.proto) [ none ↦ s.compression | some c ↦ c ]

unfoldable pub handle_request_network_settings : Env → RequestNetworkSettings → Action Done
handle_request_network_settings env pk = do
  accepted ← select_protocol env pk.client_protocol
  if not accepted then refuse_protocol pk.client_protocol else do
    _ ← modify (λ s. record s { compression = selected env s })
    _ ← expect (id_login ∷ [])
    c ← gets (λ s. s.compression)
    _ ← write_packet (
        network_settings (record new_network_settings {
          compression_threshold = env.compression_threshold % 2 ^ 16;
          compression_algorithm = c;
        }))
    _ ← ignore flush
    modify (enable_compression c env.compression_threshold)

-- The texture pack of `handleClientToServerHandshake`.
unfoldable pub texture_pack : (List ℕ → List ℕ) → Pack → TexturePackInfo
texture_pack uuid_string pack = record new_texture_pack_info {
  uuid = pack.uuid;
  version = pack.version;
  size = length pack.content;
  download_url = pack.download_url;
  content_key = if encrypted pack then pack.content_key else [];
  content_identity = if encrypted pack then uuid_string pack.uuid else [];
}

-- What `handleClientToServerHandshake` sends.
unfoldable pub announce_packs : Env → Action Done
announce_packs env = do
  _ ← write_packet (play_status (record { status = login_success }))
  _ ←
      modify (λ s. record s {
        resource_packs = env.fetch_resource_packs s.identity_data s.resource_packs;
      })
  packs ← gets (λ s. s.resource_packs)
  write_packet (
      resource_packs_info (record new_resource_packs_info {
        texture_pack_required = env.texture_packs_required;
        force_disable_vibrant_visuals = env.force_disable_vibrant_visuals;
        texture_packs = map (texture_pack env.uuid_string) packs;
      }))

unfoldable pub handle_client_to_server_handshake : Env → Action Done
handle_client_to_server_handshake env = do
  _ ← modify (λ s. record s { authenticated = true })
  _ ← expect (id_resource_pack_client_response ∷ id_client_cache_status ∷ [])
  announce_packs env

unfoldable pub enable_packet_encryption : List ℕ → Action Done
enable_packet_encryption key =
    modify (λ s. record s {
      enc = record s.enc { key = some key };
      dec = record s.dec { key = some key };
    })

-- `enableEncryption`, with the serialised token and the derived key, or their errors.
abbrev pub use_key : Option (List ℕ) → Action Done
use_key none = raise no_encryption_key
use_key (some key) = enable_packet_encryption key

abbrev pub send_token : Option (List ℕ) → Action Done
send_token none = raise bad_server_token
send_token (some jwt) =
    write_packet (server_to_client_handshake (record { jwt = jwt })) >> ignore flush

unfoldable pub enable_encryption : Env → List ℕ → Action Done
enable_encryption env public_key =
    send_token env.server_jwt >> use_key (env.encryption_key public_key)

-- The start of `handleLogin` on a connection without network settings.
unfoldable pub legacy_login : Env → Login → Action Done
legacy_login env pk = do
  accepted ← select_protocol env pk.client_protocol
  if not accepted
      then refuse_protocol pk.client_protocol
      else modify (λ s. record s {
        compression = 0;
        enc = record s.enc { compression = some 0; threshold = 0; legacy = true };
        dec = record s.dec { compression = some 0; threshold = 0; legacy = true };
      })

-- The constants DisconnectReason… of packet/disconnect.go.
abbrev pub reason_not_authenticated : ℕ
reason_not_authenticated = 46

abbrev pub reason_kicked : ℕ
reason_kicked = 55

-- The end of `handleLogin`, for a player who may join.
unfoldable pub protect : Env → List ℕ → Action Done
protect env public_key =
    if env.disable_encryption
    then handle_client_to_server_handshake env
    else expect (id_client_to_server_handshake ∷ []) >> enable_encryption env public_key

abbrev pub write_disconnect : ℕ → List ℕ → Action Done
write_disconnect reason message =
    ignore (write_packet (disconnect (record { reason = reason; message = message })))

-- What follows on the answer of `allow`.
abbrev pub let_in : Env → AuthResult → Option (List ℕ) → Action Done
let_in env auth none = protect env auth.public_key
let_in env auth (some reason) = write_disconnect reason_kicked reason >> close

-- The checks of `handleLogin` on a request that was parsed.
unfoldable pub admit : Env → AuthResult → Action Done
admit env auth =
    if not auth.xbox_live_authenticated && env.auth_enabled
    then write_disconnect 0 env.not_authenticated_message >> raise not_authenticated
    else if not (env.verify_public_key auth.public_key)
    then write_disconnect reason_not_authenticated [] >> raise bad_public_key
    else gets (λ s. s.identity_data) >>= λ identity. let_in env auth (env.allow identity)

abbrev pub admit_parsed : Env → Option AuthResult → Action Done
admit_parsed env none = raise bad_login
admit_parsed env (some auth) = admit env auth

unfoldable pub handle_login : Env → Login → Action Done
handle_login env pk = do
  legacy ← gets (λ s. s.legacy_network_settings)
  _ ← when legacy (legacy_login env pk)
  _ ← modify (λ s. record s { identity_data = (env.parse_login pk.connection_request).0 })
  admit_parsed env (env.parse_login pk.connection_request).1

unfoldable pub handle_client_cache_status : ClientCacheStatus → Action Done
handle_client_cache_status pk = modify (λ s. record s { cache_enabled = pk.enabled })

abbrev pub send_next : Option ResourcePackDataInfo → Action Done
send_next none = raise no_packs
send_next (some pk) =
    write_packet (resource_pack_data_info pk) >> expect (id_resource_pack_chunk_request ∷ [])

unfoldable pub next_resource_pack_download : Env → Action Done
next_resource_pack_download env = with_queue (next_pack env.uuid_string env.pick) >>= send_next

-- The case PackResponseSendPacks.
unfoldable pub send_packs : Env → List (List ℕ) → Action Done
send_packs env packs = do
  _ ← modify (λ s. record s {
    pack_queue = some (record empty_queue {
      packs = s.resource_packs;
      chunk_size = env.resource_pack_delivery.chunk_size;
    });
  })
  _ ← with_queue (request env.uuid_string packs)
  next_resource_pack_download env

abbrev pub stacked : List ℕ → List ℕ → StackResourcePack
stacked uuid version = record { uuid = uuid; version = version; sub_pack_name = [] }

-- The case PackResponseAllPacksDownloaded: "1.26.60" and the experiment "cameras".
unfoldable pub send_stack : Env → Action Done
send_stack env = do
  packs ← gets (λ s. s.resource_packs)
  write_packet (
      resource_pack_stack (record new_resource_pack_stack {
        base_game_version = 49 ∷ 46 ∷ 50 ∷ 54 ∷ 46 ∷ 54 ∷ 48 ∷ [];
        experiments =
            record { name = 99 ∷ 97 ∷ 109 ∷ 101 ∷ 114 ∷ 97 ∷ 115 ∷ []; enabled = true } ∷ [];
        texture_packs =
            map (λ (pack : Pack). stacked (env.uuid_string pack.uuid) pack.version) packs
            ++ map (λ (pack : Exempted). stacked pack.uuid pack.version) exempted_packs;
      }))

-- The case PackResponseCompleted.
abbrev pub complete_login : Action Done
complete_login = modify (λ s. record s { logged_in = true })

unfoldable pub handle_resource_pack_client_response : Env → ResourcePackClientResponse → Action Done
handle_resource_pack_client_response env pk =
    if pk.response == pack_response_refused
    then close
    else if pk.response == pack_response_send_packs
    then if length pk.packs_to_download == 0 then pure tt else send_packs env pk.packs_to_download
    else if pk.response == pack_response_all_packs_downloaded
    then send_stack env
    else if pk.response == pack_response_completed
    then complete_login
    else raise unknown_response

-- What follows on a chunk: on the last one, the next pack or the client's response.
abbrev pub end_chunk : Env → (last downloaded : Bool) → Action Done
end_chunk env false downloaded = pure tt
end_chunk env true false = ignore (next_resource_pack_download env)
end_chunk env true true = expect (id_resource_pack_client_response ∷ [])

-- The delay after the chunk is not here.
unfoldable pub handle_resource_pack_chunk_request : Env → ResourcePackChunkRequest → Action Done
handle_resource_pack_chunk_request env pk = do
  served ← with_queue (serve env.uuid_string pk)
  _ ← write_packet (resource_pack_chunk_data served.0)
  _ ← flush
  downloaded ← with_queue (λ queue. (ok (all_downloaded queue), queue))
  end_chunk env served.1 downloaded

-- `WritePacket` on each, up to the first error.
abbrev pub write_all : List Message → Action Done
write_all [] = pure tt
write_all (pk ∷ pks) = write_packet pk >> write_all pks

-- An int32 below 1, by its pattern.
abbrev pub no_radius : ℕ → Bool
no_radius radius = (radius == 0) || leb (2 ^ 31) radius

unfoldable pub handle_request_chunk_radius : Env → RequestChunkRadius → Action Done
handle_request_chunk_radius env pk =
    if no_radius pk.chunk_radius then raise bad_chunk_radius else do
      _ ← expect (id_set_local_player_as_initialised ∷ [])
      old ← gets (λ s. s.game_data.chunk_radius)
      _ ← ignore (
          write_packet (
            chunk_radius_updated
              (record { chunk_radius = if old == 0 then pk.chunk_radius else old })))
      _ ←
          modify
            (λ s. record s { game_data = record s.game_data { chunk_radius = pk.chunk_radius } })
      _ ← write_all env.pre_spawn_packets
      _ ← ignore (write_packet (play_status (record { status = player_spawn })))
      ignore (write_packet (other 145 []))

unfoldable pub handle_set_local_player_as_initialised : SetLocalPlayerAsInitialised → Action Done
handle_set_local_player_as_initialised pk = do
  expected ← gets (λ s. s.game_data.entity_runtime_id)
  if not (pk.entity_runtime_id == expected) then raise runtime_id_mismatch else do
    waiting ← gets (λ s. s.waiting_for_spawn)
    when waiting (modify (λ s. record s { waiting_for_spawn = false }) >> close_spawn)

-- `startGame`, with JigsawStructureData and VoxelShapes as packets of those IDs.
unfoldable pub write_start_game : Action Done
write_start_game = do
  _ ← expect (id_request_chunk_radius ∷ id_set_local_player_as_initialised ∷ [])
  data' ← gets (λ s. s.game_data)
  _ ←
      when (not (length data'.dimensions == 0))
        (ignore (write_packet (dimension_data data'.dimensions)))
  _ ← ignore (write_packet (other 213 []))
  _ ← ignore (write_packet (other 237 []))
  _ ← ignore (
      write_packet (
        start_game (record {
          world_name = data'.world_name;
          entity_runtime_id = data'.entity_runtime_id;
          settings = data'.settings;
        })))
  _ ← ignore (write_packet (item_registry data'.items))
  ignore flush

-- `StartGameContext` up to its wait for the spawn.
unfoldable pub start_game_context : GameData → Action Done
start_game_context data' = do
  received ← gets (λ s. s.game_data_received)
  if received then raise misused else do
    _ ← modify (λ s. record s {
      game_data = record data' {
        world_name =
            if length data'.world_name == 0 then s.game_data.world_name else data'.world_name;
      };
      shield_id = find_shield data'.items s.shield_id;
      waiting_for_spawn = true;
    })
    write_start_game
