-- ===== src/Conn/Client.antt =====
-- minecraft/conn.go: the handlers of a dialer's Conn, and the rounds of the goroutines that download
-- its packs, which run between packets: what a round writes waits for a later flush. A goroutine is
-- known by the ID of its pack.
use gophertunnel.Prelude.{
  ℕ, ◌+◌, ◌-◌, ◌%◌, ◌^◌, true, false, ◌&&◌, not, Option, none, some, List, [], ◌∷◌, ◌++◌, ltb, ◌==◌,
  if◌then◌else◌, length,
}
use gophertunnel.Prelude.Results.{Result, ok, err}
use gophertunnel.Prelude.Maps.{find, put, remove}
use gophertunnel.Faults.{
  Fault, unknown_compression, unknown_status, unknown_pack, unexpected_pack, bad_chunk_radius,
  rejected,
}
use gophertunnel.Packs.{Pack, CacheKey, with_content_key, matches}
use gophertunnel.Packs.Queue.{
  DownloadingPack, ResourcePackQueue, empty_queue, cut, start_download, take_chunk,
}
use gophertunnel.Packet.Login.{NetworkSettings, PlayStatus, ServerToClientHandshake}
use gophertunnel.Packet.Spawning.{ChunkRadiusUpdated}
use gophertunnel.Packet.PackInfo.{TexturePackInfo, ResourcePacksInfo, ResourcePackDataInfo}
use gophertunnel.Packet.PackTransfer.{ResourcePackChunkData, ResourcePackStack}
use gophertunnel.Conn.Messages.{
  StartGame, ItemEntry, client_to_server_handshake, client_cache_status,
  resource_pack_client_response, resource_pack_chunk_request, request_chunk_radius,
  set_local_player_as_initialised, pack_response_send_packs, pack_response_all_packs_downloaded,
  pack_response_completed, id_play_status, id_resource_packs_info, id_resource_pack_stack,
  id_start_game, id_chunk_radius_updated, id_resource_pack_data_info, id_resource_pack_chunk_data,
  id_item_registry, id_dimension_data,
}
use gophertunnel.Conn.State.{
  Env, Action, Done, pure, raise, ◌>>=◌, ◌>>◌, gets, modify, ignore, when, expect, write_packet,
  flush, close, close_spawn,
}
use gophertunnel.Conn.Packs.{with_queue, has_all, find_shield}
use gophertunnel.Conn.Server.{
  enable_compression, enable_packet_encryption, no_radius, login_success, player_spawn,
}

unfoldable pub handle_network_settings : Env → NetworkSettings → Action Done
handle_network_settings env pk =
    if env.compression_by_id pk.compression_algorithm
    then modify (λ s.
      record (enable_compression pk.compression_algorithm pk.compression_threshold s) {
        ready_to_login = true;
      })
    else raise unknown_compression

unfoldable pub handle_server_to_client_handshake : Env → ServerToClientHandshake → Action Done
handle_server_to_client_handshake env pk = elim (env.open_server_jwt pk.jwt) [
  | err e ↦ raise e
  | ok key ↦ enable_packet_encryption key >> ignore (write_packet client_to_server_handshake)
]

-- `conn.packQueue.packAmount--`, an int as the pattern of its 64 bits.
abbrev pub count_pack : Action ℕ
count_pack = with_queue (λ queue.
    let amount = (queue.pack_amount + (2 ^ 64 - 1)) % 2 ^ 64 in
    (ok amount, record queue { pack_amount = amount }))

-- What the cache has under a key, if it matches that key.
abbrev pub load_cached : Env → CacheKey → Option Pack
load_cached env key = elim (env.cache_load key) [
  | none ↦ none
  | some pack ↦ if matches key pack then some pack else none
]

-- A pack to download, under its ID. The buffer of that size is taken to be allocated.
abbrev pub add_download : List ℕ → CacheKey → TexturePackInfo → Action Done
add_download id key pack = with_queue (λ queue. (
  ok tt,
  record queue {
    downloading_packs =
        put id
          (record {
            buf = [];
            chunk_size = 0;
            size = pack.size;
            expected_index = 0;
            content_key = pack.content_key;
            cache_key = key;
            id_copy = [];
            requested = 0;
            chunk_count = 0;
          })
          queue.downloading_packs;
  },
))

-- One round of the loop of `handleResourcePacksInfo`: what it adds to `packsToDownload`.
unfoldable pub take_texture_pack : Env → ℕ → ℕ → TexturePackInfo → Action (List (List ℕ))
take_texture_pack env total index pack =
    let id = env.uuid_string pack.uuid in
    let key : CacheKey = record { uuid = pack.uuid; version = pack.version; size = pack.size } in
    do
      known ← with_queue (λ queue. (ok (find id queue.downloading_packs), queue))
      elim known [
        | some d ↦ count_pack >> pure []
        | none ↦
            if not (env.download_resource_pack pack.uuid pack.version index total)
            then modify (λ s. record s {
              ignored_resource_packs =
                  s.ignored_resource_packs ++ record { uuid = id; version = pack.version } ∷ [];
            })
              >> count_pack
              >> pure []
            else elim (load_cached env key) [
              | some cached ↦
                  modify (λ s. record s {
                    resource_packs =
                        s.resource_packs ++ with_content_key cached pack.content_key ∷ [];
                  })
                  >> count_pack
                  >> pure []
              | none ↦ add_download id key pack >> pure ((id ++ 95 ∷ pack.version) ∷ [])
            ]
      ]

abbrev pub take_texture_packs : Env → ℕ → ℕ → List TexturePackInfo → Action (List (List ℕ))
take_texture_packs env total index [] = pure []
take_texture_packs env total index (pack ∷ packs) = do
  asked ← take_texture_pack env total index pack
  rest ← take_texture_packs env total (index + 1) packs
  pure (asked ++ rest)

-- `WritePacket` of a ResourcePackClientResponse.
abbrev pub respond : ℕ → List (List ℕ) → Action Done
respond response packs = ignore (
    write_packet
      (resource_pack_client_response (record { response = response; packs_to_download = packs })))

unfoldable pub handle_resource_packs_info : Env → ResourcePacksInfo → Action Done
handle_resource_packs_info env pk = do
  _ ← modify (λ s. record s {
    pack_queue = some (record empty_queue { pack_amount = length pk.texture_packs });
  })
  packs ← take_texture_packs env (length pk.texture_packs) 0 pk.texture_packs
  if length packs == 0
      then expect (id_resource_pack_stack ∷ id_play_status ∷ [])
        >> respond pack_response_all_packs_downloaded []
      else expect (id_resource_pack_data_info ∷ id_resource_pack_chunk_data ∷ id_play_status ∷ [])
        >> respond pack_response_send_packs packs

-- The end of the goroutine of `handleResourcePackDataInfo`, without `storeResourcePack`.
unfoldable pub finish_download : Env → DownloadingPack → Action Done
finish_download env d =
    if not (length d.buf == d.size) then pure tt else elim (env.read_pack d.buf) [
      | none ↦ pure tt
      | some pack ↦ do
        amount ← count_pack
        _ ← modify (λ s. record s {
          resource_packs = s.resource_packs ++ with_content_key pack d.content_key ∷ [];
        })
        when (amount == 0) (
            expect (id_resource_pack_stack ∷ id_play_status ∷ [])
            >> respond pack_response_all_packs_downloaded [])
    ]

-- The request at the start of a round of that goroutine's loop.
abbrev pub write_request : DownloadingPack → Action Done
write_request d = ignore (
    write_packet
      (resource_pack_chunk_request (record { uuid = d.id_copy; chunk_index = d.requested })))

-- A round of that goroutine's loop up to its wait for the chunk, or the end.
unfoldable pub request_chunk : Env → DownloadingPack → Action Done
request_chunk env d =
    if ltb d.requested d.chunk_count then write_request d else finish_download env d

-- The goroutine of a pack runs, from the top of its loop.
unfoldable pub download_step : Env → List ℕ → Action Done
download_step env id = do
  running ← gets (λ s. find id s.downloads)
  elim running [
    | none ↦ pure tt
    | some d ↦ modify (λ s. record s { downloads = remove id s.downloads }) >> request_chunk env d
  ]

-- The goroutine is at the top of its loop.
abbrev pub at_top : List ℕ → DownloadingPack → Action Done
at_top id d = modify (λ s. record s { downloads = put id d s.downloads })

-- The handler returns when the goroutine has started.
unfoldable pub handle_resource_pack_data_info : ResourcePackDataInfo → Action Done
handle_resource_pack_data_info pk = with_queue (start_download pk) >>= λ d. at_top (cut pk.uuid).0 d

-- `handleResourcePackChunkData` on the queue.
unfoldable pub take_data :
    ResourcePackChunkData → ResourcePackQueue → Result Fault DownloadingPack × ResourcePackQueue
take_data pk queue = elim (find (cut pk.uuid).0 queue.awaiting_packs) [
  | none ↦ (err unexpected_pack, queue)
  | some d ↦ elim (take_chunk pk d) [
    | err e ↦ (err e, queue)
    | ok d' ↦ (ok d', record queue { awaiting_packs = put (cut pk.uuid).0 d' queue.awaiting_packs })
  ]
]

-- The handler waits for the goroutine to take the chunk: one that is still at the top of its loop
-- writes its request before.
unfoldable pub handle_resource_pack_chunk_data : ResourcePackChunkData → Action Done
handle_resource_pack_chunk_data pk = do
  d ← with_queue (take_data pk)
  running ← gets (λ s. find (cut pk.uuid).0 s.downloads)
  _ ← elim running [ none ↦ pure tt | some d' ↦ write_request d' ]
  at_top (cut pk.uuid).0 d

unfoldable pub handle_resource_pack_stack : Env → ResourcePackStack → Action Done
handle_resource_pack_stack env pk = do
  complete ← gets (λ s. has_all env.uuid_string s pk.texture_packs)
  if complete
      then expect (id_dimension_data ∷ id_start_game ∷ []) >> respond pack_response_completed []
      else raise unknown_pack

unfoldable pub handle_dimension_data : List (List ℕ) → Action Done
handle_dimension_data definitions =
    modify (λ s. record s { game_data = record s.game_data { dimensions = definitions } })

unfoldable pub handle_start_game : StartGame → Action Done
handle_start_game pk = do
  _ ← modify (λ s. record s {
    game_data = record {
      world_name = pk.world_name;
      entity_runtime_id = pk.entity_runtime_id;
      settings = pk.settings;
      dimensions = s.game_data.dimensions;
      items = [];
      chunk_radius = 0;
    };
  })
  expect (id_item_registry ∷ [])

unfoldable pub handle_item_registry : List ItemEntry → Action Done
handle_item_registry items = do
  _ ← modify (λ s. record s {
    game_data = record s.game_data { items = items };
    shield_id = find_shield items s.shield_id;
  })
  _ ←
      ignore
        (write_packet (request_chunk_radius (record { chunk_radius = 16; max_chunk_radius = 16 })))
  expect (id_chunk_radius_updated ∷ id_play_status ∷ [])

unfoldable pub try_finalise_client_conn : Action Done
try_finalise_client_conn = do
  ready ← gets (λ s. s.waiting_for_spawn && s.game_data_received)
  when ready do
    _ ← modify (λ s. record s { waiting_for_spawn = false; game_data_received = false })
    _ ← close_spawn
    _ ← modify (λ s. record s { logged_in = true })
    entity ← gets (λ s. s.game_data.entity_runtime_id)
    ignore (write_packet (set_local_player_as_initialised (record { entity_runtime_id = entity })))

unfoldable pub handle_chunk_radius_updated : ChunkRadiusUpdated → Action Done
handle_chunk_radius_updated pk = if no_radius pk.chunk_radius then raise bad_chunk_radius else do
  _ ← expect (id_play_status ∷ id_resource_packs_info ∷ [])
  _ ← modify (λ s. record s {
    game_data = record s.game_data { chunk_radius = pk.chunk_radius };
    game_data_received = true;
  })
  try_finalise_client_conn

-- The case PlayStatusLoginSuccess.
abbrev pub announce_cache : Action Done
announce_cache = do
  enabled ← gets (λ s. s.cache_enabled)
  _ ← write_packet (client_cache_status (record { enabled = enabled }))
  flush

-- The constants of packet/play_status.go go up to 9.
unfoldable pub handle_play_status : PlayStatus → Action Done
handle_play_status pk =
    if pk.status == login_success
    then announce_cache
    else if pk.status == player_spawn
    then modify (λ s. record s { waiting_for_spawn = true }) >> try_finalise_client_conn
    else if ltb pk.status 10
    then ignore close >> raise rejected
    else raise unknown_status
