-- ===== src/Packet/Kind/RoundTrip.antt =====
-- Every packet but an unknown one is read back as it was written.
use gophertunnel.Prelude.{Bool, arith}
use gophertunnel.Io.Reader.{reader}
use gophertunnel.Io.Writer.{writer}
use gophertunnel.Io.Sim.{Sim, step, done, weaken}
use gophertunnel.Packet.Login.RoundTrip.{
  IsRequestNetworkSettings, marshal_request_network_settings-Sim, IsNetworkSettings,
  marshal_network_settings-Sim, IsLogin, marshal_login-Sim, IsPlayStatus, marshal_play_status-Sim,
  IsServerToClientHandshake, marshal_server_to_client_handshake-Sim,
  marshal_client_cache_status-Sim,
}
use gophertunnel.Packet.Spawning.RoundTrip.{
  IsRequestChunkRadius, marshal_request_chunk_radius-Sim, IsChunkRadiusUpdated,
  marshal_chunk_radius_updated-Sim, IsSetLocalPlayerAsInitialised,
  marshal_set_local_player_as_initialised-Sim, IsRespawn, marshal_respawn-Sim, IsSetSpawnPosition,
  marshal_set_spawn_position-Sim, IsChangeDimension, marshal_change_dimension-Sim,
}
use gophertunnel.Packet.PackInfo.RoundTrip.{
  IsResourcePacksInfo, marshal_resource_packs_info-Sim, IsResourcePackDataInfo,
  marshal_resource_pack_data_info-Sim,
}
use gophertunnel.Packet.PackTransfer.RoundTrip.{
  IsResourcePackChunkData, marshal_resource_pack_chunk_data-Sim, IsResourcePackChunkRequest,
  marshal_resource_pack_chunk_request-Sim, IsResourcePackStack, marshal_resource_pack_stack-Sim,
}
use gophertunnel.Packet.Movement.RoundTrip.{
  IsMovePlayer, marshal_move_player-Sim, IsMotionPredictionHints,
  marshal_motion_prediction_hints-Sim, IsSetActorMotion, marshal_set_actor_motion-Sim,
}
use gophertunnel.Packet.Prediction.RoundTrip.{
  IsCorrectPlayerMovePrediction, marshal_correct_player_move_prediction-Sim, IsMovementEffect,
  marshal_movement_effect-Sim,
}
use gophertunnel.Packet.Actors.RoundTrip.{
  IsTakeItemActor, marshal_take_item_actor-Sim, IsRemoveActor, marshal_remove_actor-Sim,
  IsActorEvent, marshal_actor_event-Sim, IsMobEffect, marshal_mob_effect-Sim,
}
use gophertunnel.Packet.Interaction.RoundTrip.{
  IsSetActorLink, marshal_set_actor_link-Sim, IsInteract, marshal_interact-Sim, IsActorPickRequest,
  marshal_actor_pick_request-Sim, IsHurtArmour, marshal_hurt_armour-Sim, IsAnimateEntity,
  marshal_animate_entity-Sim,
}
use gophertunnel.Packet.Blocks.RoundTrip.{
  IsUpdateBlock, marshal_update_block-Sim, IsUpdateBlockSynced, marshal_update_block_synced-Sim,
  IsBlockEvent, marshal_block_event-Sim, IsBlockPickRequest, marshal_block_pick_request-Sim,
}
use gophertunnel.Packet.BlockChanges.RoundTrip.{
  IsUpdateSubChunkBlocks, marshal_update_sub_chunk_blocks-Sim, IsPlayerAction,
  marshal_player_action-Sim, IsLevelEvent, marshal_level_event-Sim,
}
use gophertunnel.Packet.Containers.RoundTrip.{
  IsContainerOpen, marshal_container_open-Sim, marshal_container_close-Sim, IsContainerSetData,
  marshal_container_set_data-Sim, IsPlayerHotBar, marshal_player_hot_bar-Sim, IsCompletedUsingItem,
  marshal_completed_using_item-Sim, IsSetPlayerInventoryOptions,
  marshal_set_player_inventory_options-Sim,
}
use gophertunnel.Packet.Screen.RoundTrip.{
  IsSetTitle, marshal_set_title-Sim, IsBossEvent, marshal_boss_event-Sim, IsSetDisplayObjective,
  marshal_set_display_objective-Sim, IsSetHud, marshal_set_hud-Sim,
}
use gophertunnel.Packet.Forms.RoundTrip.{
  IsModalFormRequest, marshal_modal_form_request-Sim, IsModalFormResponse,
  marshal_modal_form_response-Sim, IsToastRequest, marshal_toast_request-Sim,
}
use gophertunnel.Packet.World.RoundTrip.{
  IsSetTime, marshal_set_time-Sim, IsSetDifficulty, marshal_set_difficulty-Sim,
  marshal_set_commands_enabled-Sim, IsNetworkStackLatency, marshal_network_stack_latency-Sim,
  IsLevelSoundEvent, marshal_level_sound_event-Sim, IsClientCacheBlobStatus,
  marshal_client_cache_blob_status-Sim,
}
use gophertunnel.Packet.Transfers.RoundTrip.{IsTransfer, marshal_transfer-Sim}
use gophertunnel.Packet.Kind.{
  Packet, request_network_settings, network_settings, login, play_status,
  server_to_client_handshake, client_cache_status, request_chunk_radius, chunk_radius_updated,
  set_local_player_as_initialised, respawn, set_spawn_position, change_dimension,
  resource_packs_info, resource_pack_data_info, resource_pack_chunk_data,
  resource_pack_chunk_request, resource_pack_stack, move_player, motion_prediction_hints,
  set_actor_motion, correct_player_move_prediction, movement_effect, take_item_actor, remove_actor,
  actor_event, mob_effect, set_actor_link, interact, actor_pick_request, hurt_armour,
  animate_entity, update_block, update_block_synced, block_event, block_pick_request,
  update_sub_chunk_blocks, player_action, level_event, container_open, container_close,
  container_set_data, player_hot_bar, completed_using_item, set_player_inventory_options, set_title,
  boss_event, set_display_objective, set_hud, modal_form_request, modal_form_response,
  toast_request, set_time, set_difficulty, set_commands_enabled, network_stack_latency,
  level_sound_event, client_cache_blob_status, transfer, unknown, fresh,
}
use gophertunnel.Packet.Kind.Marshal.{marshal}

-- The fields fit what their encodings have room for.
abbrev pub IsPacket : Packet → Type 0
IsPacket (request_network_settings pk) = IsRequestNetworkSettings pk
IsPacket (network_settings pk) = IsNetworkSettings pk
IsPacket (login pk) = IsLogin pk
IsPacket (play_status pk) = IsPlayStatus pk
IsPacket (server_to_client_handshake pk) = IsServerToClientHandshake pk
IsPacket (client_cache_status pk) = Unit
IsPacket (request_chunk_radius pk) = IsRequestChunkRadius pk
IsPacket (chunk_radius_updated pk) = IsChunkRadiusUpdated pk
IsPacket (set_local_player_as_initialised pk) = IsSetLocalPlayerAsInitialised pk
IsPacket (respawn pk) = IsRespawn pk
IsPacket (set_spawn_position pk) = IsSetSpawnPosition pk
IsPacket (change_dimension pk) = IsChangeDimension pk
IsPacket (resource_packs_info pk) = IsResourcePacksInfo pk
IsPacket (resource_pack_data_info pk) = IsResourcePackDataInfo pk
IsPacket (resource_pack_chunk_data pk) = IsResourcePackChunkData pk
IsPacket (resource_pack_chunk_request pk) = IsResourcePackChunkRequest pk
IsPacket (resource_pack_stack pk) = IsResourcePackStack pk
IsPacket (move_player pk) = IsMovePlayer pk
IsPacket (motion_prediction_hints pk) = IsMotionPredictionHints pk
IsPacket (set_actor_motion pk) = IsSetActorMotion pk
IsPacket (correct_player_move_prediction pk) = IsCorrectPlayerMovePrediction pk
IsPacket (movement_effect pk) = IsMovementEffect pk
IsPacket (take_item_actor pk) = IsTakeItemActor pk
IsPacket (remove_actor pk) = IsRemoveActor pk
IsPacket (actor_event pk) = IsActorEvent pk
IsPacket (mob_effect pk) = IsMobEffect pk
IsPacket (set_actor_link pk) = IsSetActorLink pk
IsPacket (interact pk) = IsInteract pk
IsPacket (actor_pick_request pk) = IsActorPickRequest pk
IsPacket (hurt_armour pk) = IsHurtArmour pk
IsPacket (animate_entity pk) = IsAnimateEntity pk
IsPacket (update_block pk) = IsUpdateBlock pk
IsPacket (update_block_synced pk) = IsUpdateBlockSynced pk
IsPacket (block_event pk) = IsBlockEvent pk
IsPacket (block_pick_request pk) = IsBlockPickRequest pk
IsPacket (update_sub_chunk_blocks pk) = IsUpdateSubChunkBlocks pk
IsPacket (player_action pk) = IsPlayerAction pk
IsPacket (level_event pk) = IsLevelEvent pk
IsPacket (container_open pk) = IsContainerOpen pk
IsPacket (container_close pk) = Unit
IsPacket (container_set_data pk) = IsContainerSetData pk
IsPacket (player_hot_bar pk) = IsPlayerHotBar pk
IsPacket (completed_using_item pk) = IsCompletedUsingItem pk
IsPacket (set_player_inventory_options pk) = IsSetPlayerInventoryOptions pk
IsPacket (set_title pk) = IsSetTitle pk
IsPacket (boss_event pk) = IsBossEvent pk
IsPacket (set_display_objective pk) = IsSetDisplayObjective pk
IsPacket (set_hud pk) = IsSetHud pk
IsPacket (modal_form_request pk) = IsModalFormRequest pk
IsPacket (modal_form_response pk) = IsModalFormResponse pk
IsPacket (toast_request pk) = IsToastRequest pk
IsPacket (set_time pk) = IsSetTime pk
IsPacket (set_difficulty pk) = IsSetDifficulty pk
IsPacket (set_commands_enabled pk) = Unit
IsPacket (network_stack_latency pk) = IsNetworkStackLatency pk
IsPacket (level_sound_event pk) = IsLevelSoundEvent pk
IsPacket (client_cache_blob_status pk) = IsClientCacheBlobStatus pk
IsPacket (transfer pk) = IsTransfer pk
IsPacket (unknown packet_id payload) = ⊥

-- For every modelled packet with fields that fit, Marshal with a Writer appends bytes that Marshal
-- with a Reader, on a fresh packet of the type, reads back to the same packet, taking exactly
-- those bytes whatever follows them.
pub marshal-Sim :
    (limits : Bool) (pk : Packet)
    → IsPacket pk
    → Sim 0 (marshal writer pk) (marshal (reader limits) (fresh pk)) pk
unfolding marshal
marshal-Sim limits (request_network_settings pk) h =
    weaken (omega arith) (step _ _ (marshal_request_network_settings-Sim limits pk h) done)
marshal-Sim limits (network_settings pk) h =
    weaken (omega arith) (step _ _ (marshal_network_settings-Sim limits pk h) done)
marshal-Sim limits (login pk) h =
    weaken (omega arith) (step _ _ (marshal_login-Sim limits pk h) done)
marshal-Sim limits (play_status pk) h =
    weaken (omega arith) (step _ _ (marshal_play_status-Sim limits pk h) done)
marshal-Sim limits (server_to_client_handshake pk) h =
    weaken (omega arith) (step _ _ (marshal_server_to_client_handshake-Sim limits pk h) done)
marshal-Sim limits (client_cache_status pk) h =
    weaken (omega arith) (step _ _ (marshal_client_cache_status-Sim limits pk) done)
marshal-Sim limits (request_chunk_radius pk) h =
    weaken (omega arith) (step _ _ (marshal_request_chunk_radius-Sim limits pk h) done)
marshal-Sim limits (chunk_radius_updated pk) h =
    weaken (omega arith) (step _ _ (marshal_chunk_radius_updated-Sim limits pk h) done)
marshal-Sim limits (set_local_player_as_initialised pk) h =
    weaken (omega arith) (step _ _ (marshal_set_local_player_as_initialised-Sim limits pk h) done)
marshal-Sim limits (respawn pk) h =
    weaken (omega arith) (step _ _ (marshal_respawn-Sim limits pk h) done)
marshal-Sim limits (set_spawn_position pk) h =
    weaken (omega arith) (step _ _ (marshal_set_spawn_position-Sim limits pk h) done)
marshal-Sim limits (change_dimension pk) h =
    weaken (omega arith) (step _ _ (marshal_change_dimension-Sim limits pk h) done)
marshal-Sim limits (resource_packs_info pk) h =
    weaken (omega arith) (step _ _ (marshal_resource_packs_info-Sim limits pk h) done)
marshal-Sim limits (resource_pack_data_info pk) h =
    weaken (omega arith) (step _ _ (marshal_resource_pack_data_info-Sim limits pk h) done)
marshal-Sim limits (resource_pack_chunk_data pk) h =
    weaken (omega arith) (step _ _ (marshal_resource_pack_chunk_data-Sim limits pk h) done)
marshal-Sim limits (resource_pack_chunk_request pk) h =
    weaken (omega arith) (step _ _ (marshal_resource_pack_chunk_request-Sim limits pk h) done)
marshal-Sim limits (resource_pack_stack pk) h =
    weaken (omega arith) (step _ _ (marshal_resource_pack_stack-Sim limits pk h) done)
marshal-Sim limits (move_player pk) h =
    weaken (omega arith) (step _ _ (marshal_move_player-Sim limits pk h) done)
marshal-Sim limits (motion_prediction_hints pk) h =
    weaken (omega arith) (step _ _ (marshal_motion_prediction_hints-Sim limits pk h) done)
marshal-Sim limits (set_actor_motion pk) h =
    weaken (omega arith) (step _ _ (marshal_set_actor_motion-Sim limits pk h) done)
marshal-Sim limits (correct_player_move_prediction pk) h =
    weaken (omega arith) (step _ _ (marshal_correct_player_move_prediction-Sim limits pk h) done)
marshal-Sim limits (movement_effect pk) h =
    weaken (omega arith) (step _ _ (marshal_movement_effect-Sim limits pk h) done)
marshal-Sim limits (take_item_actor pk) h =
    weaken (omega arith) (step _ _ (marshal_take_item_actor-Sim limits pk h) done)
marshal-Sim limits (remove_actor pk) h =
    weaken (omega arith) (step _ _ (marshal_remove_actor-Sim limits pk h) done)
marshal-Sim limits (actor_event pk) h =
    weaken (omega arith) (step _ _ (marshal_actor_event-Sim limits pk h) done)
marshal-Sim limits (mob_effect pk) h =
    weaken (omega arith) (step _ _ (marshal_mob_effect-Sim limits pk h) done)
marshal-Sim limits (set_actor_link pk) h =
    weaken (omega arith) (step _ _ (marshal_set_actor_link-Sim limits pk h) done)
marshal-Sim limits (interact pk) h =
    weaken (omega arith) (step _ _ (marshal_interact-Sim limits pk h) done)
marshal-Sim limits (actor_pick_request pk) h =
    weaken (omega arith) (step _ _ (marshal_actor_pick_request-Sim limits pk h) done)
marshal-Sim limits (hurt_armour pk) h =
    weaken (omega arith) (step _ _ (marshal_hurt_armour-Sim limits pk h) done)
marshal-Sim limits (animate_entity pk) h =
    weaken (omega arith) (step _ _ (marshal_animate_entity-Sim limits pk h) done)
marshal-Sim limits (update_block pk) h =
    weaken (omega arith) (step _ _ (marshal_update_block-Sim limits pk h) done)
marshal-Sim limits (update_block_synced pk) h =
    weaken (omega arith) (step _ _ (marshal_update_block_synced-Sim limits pk h) done)
marshal-Sim limits (block_event pk) h =
    weaken (omega arith) (step _ _ (marshal_block_event-Sim limits pk h) done)
marshal-Sim limits (block_pick_request pk) h =
    weaken (omega arith) (step _ _ (marshal_block_pick_request-Sim limits pk h) done)
marshal-Sim limits (update_sub_chunk_blocks pk) h =
    weaken (omega arith) (step _ _ (marshal_update_sub_chunk_blocks-Sim limits pk h) done)
marshal-Sim limits (player_action pk) h =
    weaken (omega arith) (step _ _ (marshal_player_action-Sim limits pk h) done)
marshal-Sim limits (level_event pk) h =
    weaken (omega arith) (step _ _ (marshal_level_event-Sim limits pk h) done)
marshal-Sim limits (container_open pk) h =
    weaken (omega arith) (step _ _ (marshal_container_open-Sim limits pk h) done)
marshal-Sim limits (container_close pk) h =
    weaken (omega arith) (step _ _ (marshal_container_close-Sim limits pk) done)
marshal-Sim limits (container_set_data pk) h =
    weaken (omega arith) (step _ _ (marshal_container_set_data-Sim limits pk h) done)
marshal-Sim limits (player_hot_bar pk) h =
    weaken (omega arith) (step _ _ (marshal_player_hot_bar-Sim limits pk h) done)
marshal-Sim limits (completed_using_item pk) h =
    weaken (omega arith) (step _ _ (marshal_completed_using_item-Sim limits pk h) done)
marshal-Sim limits (set_player_inventory_options pk) h =
    weaken (omega arith) (step _ _ (marshal_set_player_inventory_options-Sim limits pk h) done)
marshal-Sim limits (set_title pk) h =
    weaken (omega arith) (step _ _ (marshal_set_title-Sim limits pk h) done)
marshal-Sim limits (boss_event pk) h =
    weaken (omega arith) (step _ _ (marshal_boss_event-Sim limits pk h) done)
marshal-Sim limits (set_display_objective pk) h =
    weaken (omega arith) (step _ _ (marshal_set_display_objective-Sim limits pk h) done)
marshal-Sim limits (set_hud pk) h =
    weaken (omega arith) (step _ _ (marshal_set_hud-Sim limits pk h) done)
marshal-Sim limits (modal_form_request pk) h =
    weaken (omega arith) (step _ _ (marshal_modal_form_request-Sim limits pk h) done)
marshal-Sim limits (modal_form_response pk) h =
    weaken (omega arith) (step _ _ (marshal_modal_form_response-Sim limits pk h) done)
marshal-Sim limits (toast_request pk) h =
    weaken (omega arith) (step _ _ (marshal_toast_request-Sim limits pk h) done)
marshal-Sim limits (set_time pk) h =
    weaken (omega arith) (step _ _ (marshal_set_time-Sim limits pk h) done)
marshal-Sim limits (set_difficulty pk) h =
    weaken (omega arith) (step _ _ (marshal_set_difficulty-Sim limits pk h) done)
marshal-Sim limits (set_commands_enabled pk) h =
    weaken (omega arith) (step _ _ (marshal_set_commands_enabled-Sim limits pk) done)
marshal-Sim limits (network_stack_latency pk) h =
    weaken (omega arith) (step _ _ (marshal_network_stack_latency-Sim limits pk h) done)
marshal-Sim limits (level_sound_event pk) h =
    weaken (omega arith) (step _ _ (marshal_level_sound_event-Sim limits pk h) done)
marshal-Sim limits (client_cache_blob_status pk) h =
    weaken (omega arith) (step _ _ (marshal_client_cache_blob_status-Sim limits pk h) done)
marshal-Sim limits (transfer pk) h =
    weaken (omega arith) (step _ _ (marshal_transfer-Sim limits pk h) done)
marshal-Sim limits (unknown packet_id payload) h = absurd h
