-- ===== src/Packet/Kind/Marshal.antt =====
-- The method Marshal of the packets: each is that of its type.
use gophertunnel.Io.{M, ◌>>=◌, pure, Io}
use gophertunnel.Packet.Login.{
  marshal_request_network_settings, marshal_network_settings, marshal_login, marshal_play_status,
  marshal_server_to_client_handshake, marshal_client_cache_status,
}
use gophertunnel.Packet.Spawning.{
  marshal_request_chunk_radius, marshal_chunk_radius_updated,
  marshal_set_local_player_as_initialised, marshal_respawn, marshal_set_spawn_position,
  marshal_change_dimension,
}
use gophertunnel.Packet.PackInfo.{marshal_resource_packs_info, marshal_resource_pack_data_info}
use gophertunnel.Packet.PackTransfer.{
  marshal_resource_pack_chunk_data, marshal_resource_pack_chunk_request,
  marshal_resource_pack_stack,
}
use gophertunnel.Packet.Movement.{
  marshal_move_player, marshal_motion_prediction_hints, marshal_set_actor_motion,
}
use gophertunnel.Packet.Prediction.{marshal_correct_player_move_prediction, marshal_movement_effect}
use gophertunnel.Packet.Actors.{
  marshal_take_item_actor, marshal_remove_actor, marshal_actor_event, marshal_mob_effect,
}
use gophertunnel.Packet.Interaction.{
  marshal_set_actor_link, marshal_interact, marshal_actor_pick_request, marshal_hurt_armour,
  marshal_animate_entity,
}
use gophertunnel.Packet.Blocks.{
  marshal_update_block, marshal_update_block_synced, marshal_block_event,
  marshal_block_pick_request,
}
use gophertunnel.Packet.BlockChanges.{
  marshal_update_sub_chunk_blocks, marshal_player_action, marshal_level_event,
}
use gophertunnel.Packet.Containers.{
  marshal_container_open, marshal_container_close, marshal_container_set_data,
  marshal_player_hot_bar, marshal_completed_using_item, marshal_set_player_inventory_options,
}
use gophertunnel.Packet.Screen.{
  marshal_set_title, marshal_boss_event, marshal_set_display_objective, marshal_set_hud,
}
use gophertunnel.Packet.Forms.{
  marshal_modal_form_request, marshal_modal_form_response, marshal_toast_request,
}
use gophertunnel.Packet.World.{
  marshal_set_time, marshal_set_difficulty, marshal_set_commands_enabled,
  marshal_network_stack_latency, marshal_level_sound_event, marshal_client_cache_blob_status,
}
use gophertunnel.Packet.Transfers.{marshal_transfer}
use gophertunnel.Packet.Kind.{
  Packet, request_network_settings, network_settings, login, play_status,
  server_to_client_handshake, client_cache_status, request_chunk_radius, chunk_radius_updated,
  set_local_player_as_initialised, respawn, set_spawn_position, change_dimension,
  resource_packs_info, resource_pack_data_info, resource_pack_chunk_data,
  resource_pack_chunk_request, resource_pack_stack, move_player, motion_prediction_hints,
  set_actor_motion, correct_player_move_prediction, movement_effect, take_item_actor, remove_actor,
  actor_event, mob_effect, set_actor_link, interact, actor_pick_request, hurt_armour,
  animate_entity, update_block, update_block_synced, block_event, block_pick_request,
  update_sub_chunk_blocks, player_action, level_event, container_open, container_close,
  container_set_data, player_hot_bar, completed_using_item, set_player_inventory_options, set_title,
  boss_event, set_display_objective, set_hud, modal_form_request, modal_form_response,
  toast_request, set_time, set_difficulty, set_commands_enabled, network_stack_latency,
  level_sound_event, client_cache_blob_status, transfer, unknown,
}

unfoldable pub marshal : Io → Packet → M Packet
marshal io (request_network_settings pk) = do
  pk' ← marshal_request_network_settings io pk
  pure (request_network_settings pk')
marshal io (network_settings pk) = do
  pk' ← marshal_network_settings io pk
  pure (network_settings pk')
marshal io (login pk) = do pk' ← marshal_login io pk; pure (login pk')
marshal io (play_status pk) = do pk' ← marshal_play_status io pk; pure (play_status pk')
marshal io (server_to_client_handshake pk) = do
  pk' ← marshal_server_to_client_handshake io pk
  pure (server_to_client_handshake pk')
marshal io (client_cache_status pk) = do
  pk' ← marshal_client_cache_status io pk
  pure (client_cache_status pk')
marshal io (request_chunk_radius pk) = do
  pk' ← marshal_request_chunk_radius io pk
  pure (request_chunk_radius pk')
marshal io (chunk_radius_updated pk) = do
  pk' ← marshal_chunk_radius_updated io pk
  pure (chunk_radius_updated pk')
marshal io (set_local_player_as_initialised pk) = do
  pk' ← marshal_set_local_player_as_initialised io pk
  pure (set_local_player_as_initialised pk')
marshal io (respawn pk) = do pk' ← marshal_respawn io pk; pure (respawn pk')
marshal io (set_spawn_position pk) = do
  pk' ← marshal_set_spawn_position io pk
  pure (set_spawn_position pk')
marshal io (change_dimension pk) = do
  pk' ← marshal_change_dimension io pk
  pure (change_dimension pk')
marshal io (resource_packs_info pk) = do
  pk' ← marshal_resource_packs_info io pk
  pure (resource_packs_info pk')
marshal io (resource_pack_data_info pk) = do
  pk' ← marshal_resource_pack_data_info io pk
  pure (resource_pack_data_info pk')
marshal io (resource_pack_chunk_data pk) = do
  pk' ← marshal_resource_pack_chunk_data io pk
  pure (resource_pack_chunk_data pk')
marshal io (resource_pack_chunk_request pk) = do
  pk' ← marshal_resource_pack_chunk_request io pk
  pure (resource_pack_chunk_request pk')
marshal io (resource_pack_stack pk) = do
  pk' ← marshal_resource_pack_stack io pk
  pure (resource_pack_stack pk')
marshal io (move_player pk) = do pk' ← marshal_move_player io pk; pure (move_player pk')
marshal io (motion_prediction_hints pk) = do
  pk' ← marshal_motion_prediction_hints io pk
  pure (motion_prediction_hints pk')
marshal io (set_actor_motion pk) = do
  pk' ← marshal_set_actor_motion io pk
  pure (set_actor_motion pk')
marshal io (correct_player_move_prediction pk) = do
  pk' ← marshal_correct_player_move_prediction io pk
  pure (correct_player_move_prediction pk')
marshal io (movement_effect pk) = do pk' ← marshal_movement_effect io pk; pure (movement_effect pk')
marshal io (take_item_actor pk) = do pk' ← marshal_take_item_actor io pk; pure (take_item_actor pk')
marshal io (remove_actor pk) = do pk' ← marshal_remove_actor io pk; pure (remove_actor pk')
marshal io (actor_event pk) = do pk' ← marshal_actor_event io pk; pure (actor_event pk')
marshal io (mob_effect pk) = do pk' ← marshal_mob_effect io pk; pure (mob_effect pk')
marshal io (set_actor_link pk) = do pk' ← marshal_set_actor_link io pk; pure (set_actor_link pk')
marshal io (interact pk) = do pk' ← marshal_interact io pk; pure (interact pk')
marshal io (actor_pick_request pk) = do
  pk' ← marshal_actor_pick_request io pk
  pure (actor_pick_request pk')
marshal io (hurt_armour pk) = do pk' ← marshal_hurt_armour io pk; pure (hurt_armour pk')
marshal io (animate_entity pk) = do pk' ← marshal_animate_entity io pk; pure (animate_entity pk')
marshal io (update_block pk) = do pk' ← marshal_update_block io pk; pure (update_block pk')
marshal io (update_block_synced pk) = do
  pk' ← marshal_update_block_synced io pk
  pure (update_block_synced pk')
marshal io (block_event pk) = do pk' ← marshal_block_event io pk; pure (block_event pk')
marshal io (block_pick_request pk) = do
  pk' ← marshal_block_pick_request io pk
  pure (block_pick_request pk')
marshal io (update_sub_chunk_blocks pk) = do
  pk' ← marshal_update_sub_chunk_blocks io pk
  pure (update_sub_chunk_blocks pk')
marshal io (player_action pk) = do pk' ← marshal_player_action io pk; pure (player_action pk')
marshal io (level_event pk) = do pk' ← marshal_level_event io pk; pure (level_event pk')
marshal io (container_open pk) = do pk' ← marshal_container_open io pk; pure (container_open pk')
marshal io (container_close pk) = do pk' ← marshal_container_close io pk; pure (container_close pk')
marshal io (container_set_data pk) = do
  pk' ← marshal_container_set_data io pk
  pure (container_set_data pk')
marshal io (player_hot_bar pk) = do pk' ← marshal_player_hot_bar io pk; pure (player_hot_bar pk')
marshal io (completed_using_item pk) = do
  pk' ← marshal_completed_using_item io pk
  pure (completed_using_item pk')
marshal io (set_player_inventory_options pk) = do
  pk' ← marshal_set_player_inventory_options io pk
  pure (set_player_inventory_options pk')
marshal io (set_title pk) = do pk' ← marshal_set_title io pk; pure (set_title pk')
marshal io (boss_event pk) = do pk' ← marshal_boss_event io pk; pure (boss_event pk')
marshal io (set_display_objective pk) = do
  pk' ← marshal_set_display_objective io pk
  pure (set_display_objective pk')
marshal io (set_hud pk) = do pk' ← marshal_set_hud io pk; pure (set_hud pk')
marshal io (modal_form_request pk) = do
  pk' ← marshal_modal_form_request io pk
  pure (modal_form_request pk')
marshal io (modal_form_response pk) = do
  pk' ← marshal_modal_form_response io pk
  pure (modal_form_response pk')
marshal io (toast_request pk) = do pk' ← marshal_toast_request io pk; pure (toast_request pk')
marshal io (set_time pk) = do pk' ← marshal_set_time io pk; pure (set_time pk')
marshal io (set_difficulty pk) = do pk' ← marshal_set_difficulty io pk; pure (set_difficulty pk')
marshal io (set_commands_enabled pk) = do
  pk' ← marshal_set_commands_enabled io pk
  pure (set_commands_enabled pk')
marshal io (network_stack_latency pk) = do
  pk' ← marshal_network_stack_latency io pk
  pure (network_stack_latency pk')
marshal io (level_sound_event pk) = do
  pk' ← marshal_level_sound_event io pk
  pure (level_sound_event pk')
marshal io (client_cache_blob_status pk) = do
  pk' ← marshal_client_cache_blob_status io pk
  pure (client_cache_blob_status pk')
marshal io (transfer pk) = do pk' ← marshal_transfer io pk; pure (transfer pk')
marshal io (unknown packet_id payload) = do
  payload' ← io.bytes payload
  pure (unknown packet_id payload')
