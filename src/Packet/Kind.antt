-- ===== src/Packet/Kind.antt =====
-- minecraft/protocol/packet/packet.go: the interface Packet, as one data type with a constructor for
-- each implementation; id.go: the packets' IDs; unknown.go.
pub mod Marshal
pub mod RoundTrip
use gophertunnel.Prelude.{ℕ, List, []}
use gophertunnel.Packet.Login.{
  RequestNetworkSettings, new_request_network_settings, NetworkSettings, new_network_settings,
  Login, new_login, PlayStatus, new_play_status, ServerToClientHandshake,
  new_server_to_client_handshake, ClientCacheStatus, new_client_cache_status,
}
use gophertunnel.Packet.Spawning.{
  RequestChunkRadius, new_request_chunk_radius, ChunkRadiusUpdated, new_chunk_radius_updated,
  SetLocalPlayerAsInitialised, new_set_local_player_as_initialised, Respawn, new_respawn,
  SetSpawnPosition, new_set_spawn_position, ChangeDimension, new_change_dimension,
}
use gophertunnel.Packet.PackInfo.{
  ResourcePacksInfo, new_resource_packs_info, ResourcePackDataInfo, new_resource_pack_data_info,
}
use gophertunnel.Packet.PackTransfer.{
  ResourcePackChunkData, new_resource_pack_chunk_data, ResourcePackChunkRequest,
  new_resource_pack_chunk_request, ResourcePackStack, new_resource_pack_stack,
}
use gophertunnel.Packet.Movement.{
  MovePlayer, new_move_player, MotionPredictionHints, new_motion_prediction_hints, SetActorMotion,
  new_set_actor_motion,
}
use gophertunnel.Packet.Prediction.{
  CorrectPlayerMovePrediction, new_correct_player_move_prediction, MovementEffect,
  new_movement_effect,
}
use gophertunnel.Packet.Actors.{
  TakeItemActor, new_take_item_actor, RemoveActor, new_remove_actor, ActorEvent, new_actor_event,
  MobEffect, new_mob_effect,
}
use gophertunnel.Packet.Interaction.{
  SetActorLink, new_set_actor_link, Interact, new_interact, ActorPickRequest,
  new_actor_pick_request, HurtArmour, new_hurt_armour, AnimateEntity, new_animate_entity,
}
use gophertunnel.Packet.Blocks.{
  UpdateBlock, new_update_block, UpdateBlockSynced, new_update_block_synced, BlockEvent,
  new_block_event, BlockPickRequest, new_block_pick_request,
}
use gophertunnel.Packet.BlockChanges.{
  UpdateSubChunkBlocks, new_update_sub_chunk_blocks, PlayerAction, new_player_action, LevelEvent,
  new_level_event,
}
use gophertunnel.Packet.Containers.{
  ContainerOpen, new_container_open, ContainerClose, new_container_close, ContainerSetData,
  new_container_set_data, PlayerHotBar, new_player_hot_bar, CompletedUsingItem,
  new_completed_using_item, SetPlayerInventoryOptions, new_set_player_inventory_options,
}
use gophertunnel.Packet.Screen.{
  SetTitle, new_set_title, BossEvent, new_boss_event, SetDisplayObjective,
  new_set_display_objective, SetHud, new_set_hud,
}
use gophertunnel.Packet.Forms.{
  ModalFormRequest, new_modal_form_request, ModalFormResponse, new_modal_form_response,
  ToastRequest, new_toast_request,
}
use gophertunnel.Packet.World.{
  SetTime, new_set_time, SetDifficulty, new_set_difficulty, SetCommandsEnabled,
  new_set_commands_enabled, NetworkStackLatency, new_network_stack_latency, LevelSoundEvent,
  new_level_sound_event, ClientCacheBlobStatus, new_client_cache_blob_status,
}
use gophertunnel.Packet.Transfers.{Transfer, new_transfer}

pub data Packet : Type 0 where
  request_network_settings : RequestNetworkSettings → Packet
  network_settings : NetworkSettings → Packet
  login : Login → Packet
  play_status : PlayStatus → Packet
  server_to_client_handshake : ServerToClientHandshake → Packet
  client_cache_status : ClientCacheStatus → Packet
  request_chunk_radius : RequestChunkRadius → Packet
  chunk_radius_updated : ChunkRadiusUpdated → Packet
  set_local_player_as_initialised : SetLocalPlayerAsInitialised → Packet
  respawn : Respawn → Packet
  set_spawn_position : SetSpawnPosition → Packet
  change_dimension : ChangeDimension → Packet
  resource_packs_info : ResourcePacksInfo → Packet
  resource_pack_data_info : ResourcePackDataInfo → Packet
  resource_pack_chunk_data : ResourcePackChunkData → Packet
  resource_pack_chunk_request : ResourcePackChunkRequest → Packet
  resource_pack_stack : ResourcePackStack → Packet
  move_player : MovePlayer → Packet
  motion_prediction_hints : MotionPredictionHints → Packet
  set_actor_motion : SetActorMotion → Packet
  correct_player_move_prediction : CorrectPlayerMovePrediction → Packet
  movement_effect : MovementEffect → Packet
  take_item_actor : TakeItemActor → Packet
  remove_actor : RemoveActor → Packet
  actor_event : ActorEvent → Packet
  mob_effect : MobEffect → Packet
  set_actor_link : SetActorLink → Packet
  interact : Interact → Packet
  actor_pick_request : ActorPickRequest → Packet
  hurt_armour : HurtArmour → Packet
  animate_entity : AnimateEntity → Packet
  update_block : UpdateBlock → Packet
  update_block_synced : UpdateBlockSynced → Packet
  block_event : BlockEvent → Packet
  block_pick_request : BlockPickRequest → Packet
  update_sub_chunk_blocks : UpdateSubChunkBlocks → Packet
  player_action : PlayerAction → Packet
  level_event : LevelEvent → Packet
  container_open : ContainerOpen → Packet
  container_close : ContainerClose → Packet
  container_set_data : ContainerSetData → Packet
  player_hot_bar : PlayerHotBar → Packet
  completed_using_item : CompletedUsingItem → Packet
  set_player_inventory_options : SetPlayerInventoryOptions → Packet
  set_title : SetTitle → Packet
  boss_event : BossEvent → Packet
  set_display_objective : SetDisplayObjective → Packet
  set_hud : SetHud → Packet
  modal_form_request : ModalFormRequest → Packet
  modal_form_response : ModalFormResponse → Packet
  toast_request : ToastRequest → Packet
  set_time : SetTime → Packet
  set_difficulty : SetDifficulty → Packet
  set_commands_enabled : SetCommandsEnabled → Packet
  network_stack_latency : NetworkStackLatency → Packet
  level_sound_event : LevelSoundEvent → Packet
  client_cache_blob_status : ClientCacheBlobStatus → Packet
  transfer : Transfer → Packet
  unknown : (packet_id : ℕ) (payload : List ℕ) → Packet

-- The method ID.
abbrev pub id : Packet → ℕ
id (request_network_settings pk) = 193
id (network_settings pk) = 143
id (login pk) = 1
id (play_status pk) = 2
id (server_to_client_handshake pk) = 3
id (client_cache_status pk) = 129
id (request_chunk_radius pk) = 69
id (chunk_radius_updated pk) = 70
id (set_local_player_as_initialised pk) = 113
id (respawn pk) = 45
id (set_spawn_position pk) = 43
id (change_dimension pk) = 61
id (resource_packs_info pk) = 6
id (resource_pack_data_info pk) = 82
id (resource_pack_chunk_data pk) = 83
id (resource_pack_chunk_request pk) = 84
id (resource_pack_stack pk) = 7
id (move_player pk) = 19
id (motion_prediction_hints pk) = 157
id (set_actor_motion pk) = 40
id (correct_player_move_prediction pk) = 161
id (movement_effect pk) = 318
id (take_item_actor pk) = 17
id (remove_actor pk) = 14
id (actor_event pk) = 27
id (mob_effect pk) = 28
id (set_actor_link pk) = 41
id (interact pk) = 33
id (actor_pick_request pk) = 35
id (hurt_armour pk) = 38
id (animate_entity pk) = 158
id (update_block pk) = 21
id (update_block_synced pk) = 110
id (block_event pk) = 26
id (block_pick_request pk) = 34
id (update_sub_chunk_blocks pk) = 172
id (player_action pk) = 36
id (level_event pk) = 25
id (container_open pk) = 46
id (container_close pk) = 47
id (container_set_data pk) = 51
id (player_hot_bar pk) = 48
id (completed_using_item pk) = 142
id (set_player_inventory_options pk) = 307
id (set_title pk) = 88
id (boss_event pk) = 74
id (set_display_objective pk) = 107
id (set_hud pk) = 308
id (modal_form_request pk) = 100
id (modal_form_response pk) = 101
id (toast_request pk) = 186
id (set_time pk) = 10
id (set_difficulty pk) = 60
id (set_commands_enabled pk) = 59
id (network_stack_latency pk) = 115
id (level_sound_event pk) = 123
id (client_cache_blob_status pk) = 135
id (transfer pk) = 85
id (unknown packet_id payload) = packet_id

-- The zero value of the same type, which the pool's function makes.
abbrev pub fresh : Packet → Packet
fresh (request_network_settings pk) = request_network_settings new_request_network_settings
fresh (network_settings pk) = network_settings new_network_settings
fresh (login pk) = login new_login
fresh (play_status pk) = play_status new_play_status
fresh (server_to_client_handshake pk) = server_to_client_handshake new_server_to_client_handshake
fresh (client_cache_status pk) = client_cache_status new_client_cache_status
fresh (request_chunk_radius pk) = request_chunk_radius new_request_chunk_radius
fresh (chunk_radius_updated pk) = chunk_radius_updated new_chunk_radius_updated
fresh (set_local_player_as_initialised pk) =
    set_local_player_as_initialised new_set_local_player_as_initialised
fresh (respawn pk) = respawn new_respawn
fresh (set_spawn_position pk) = set_spawn_position new_set_spawn_position
fresh (change_dimension pk) = change_dimension new_change_dimension
fresh (resource_packs_info pk) = resource_packs_info new_resource_packs_info
fresh (resource_pack_data_info pk) = resource_pack_data_info new_resource_pack_data_info
fresh (resource_pack_chunk_data pk) = resource_pack_chunk_data new_resource_pack_chunk_data
fresh (resource_pack_chunk_request pk) = resource_pack_chunk_request new_resource_pack_chunk_request
fresh (resource_pack_stack pk) = resource_pack_stack new_resource_pack_stack
fresh (move_player pk) = move_player new_move_player
fresh (motion_prediction_hints pk) = motion_prediction_hints new_motion_prediction_hints
fresh (set_actor_motion pk) = set_actor_motion new_set_actor_motion
fresh (correct_player_move_prediction pk) =
    correct_player_move_prediction new_correct_player_move_prediction
fresh (movement_effect pk) = movement_effect new_movement_effect
fresh (take_item_actor pk) = take_item_actor new_take_item_actor
fresh (remove_actor pk) = remove_actor new_remove_actor
fresh (actor_event pk) = actor_event new_actor_event
fresh (mob_effect pk) = mob_effect new_mob_effect
fresh (set_actor_link pk) = set_actor_link new_set_actor_link
fresh (interact pk) = interact new_interact
fresh (actor_pick_request pk) = actor_pick_request new_actor_pick_request
fresh (hurt_armour pk) = hurt_armour new_hurt_armour
fresh (animate_entity pk) = animate_entity new_animate_entity
fresh (update_block pk) = update_block new_update_block
fresh (update_block_synced pk) = update_block_synced new_update_block_synced
fresh (block_event pk) = block_event new_block_event
fresh (block_pick_request pk) = block_pick_request new_block_pick_request
fresh (update_sub_chunk_blocks pk) = update_sub_chunk_blocks new_update_sub_chunk_blocks
fresh (player_action pk) = player_action new_player_action
fresh (level_event pk) = level_event new_level_event
fresh (container_open pk) = container_open new_container_open
fresh (container_close pk) = container_close new_container_close
fresh (container_set_data pk) = container_set_data new_container_set_data
fresh (player_hot_bar pk) = player_hot_bar new_player_hot_bar
fresh (completed_using_item pk) = completed_using_item new_completed_using_item
fresh (set_player_inventory_options pk) =
    set_player_inventory_options new_set_player_inventory_options
fresh (set_title pk) = set_title new_set_title
fresh (boss_event pk) = boss_event new_boss_event
fresh (set_display_objective pk) = set_display_objective new_set_display_objective
fresh (set_hud pk) = set_hud new_set_hud
fresh (modal_form_request pk) = modal_form_request new_modal_form_request
fresh (modal_form_response pk) = modal_form_response new_modal_form_response
fresh (toast_request pk) = toast_request new_toast_request
fresh (set_time pk) = set_time new_set_time
fresh (set_difficulty pk) = set_difficulty new_set_difficulty
fresh (set_commands_enabled pk) = set_commands_enabled new_set_commands_enabled
fresh (network_stack_latency pk) = network_stack_latency new_network_stack_latency
fresh (level_sound_event pk) = level_sound_event new_level_sound_event
fresh (client_cache_blob_status pk) = client_cache_blob_status new_client_cache_blob_status
fresh (transfer pk) = transfer new_transfer
fresh (unknown packet_id payload) = unknown packet_id []
