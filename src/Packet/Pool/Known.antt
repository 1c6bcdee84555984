-- ===== src/Packet/Pool/Known.antt =====
-- The pool of a server knows every packet modelled by the ID that the packet itself gives.
use gophertunnel.Prelude.{some, ◌≡◌, refl}
use gophertunnel.Packet.Kind.{
  Packet, id, fresh, request_network_settings, network_settings, login, play_status,
  server_to_client_handshake, client_cache_status, request_chunk_radius, chunk_radius_updated,
  set_local_player_as_initialised, respawn, set_spawn_position, change_dimension,
  resource_packs_info, resource_pack_data_info, resource_pack_chunk_data,
  resource_pack_chunk_request, resource_pack_stack, move_player, motion_prediction_hints,
  set_actor_motion, correct_player_move_prediction, movement_effect, take_item_actor, remove_actor,
  actor_event, mob_effect, set_actor_link, interact, actor_pick_request, hurt_armour,
  animate_entity, update_block, update_block_synced, block_event, block_pick_request,
  update_sub_chunk_blocks, player_action, level_event, container_open, container_close,
  container_set_data, player_hot_bar, completed_using_item, set_player_inventory_options, set_title,
  boss_event, set_display_objective, set_hud, modal_form_request, modal_form_response,
  toast_request, set_time, set_difficulty, set_commands_enabled, network_stack_latency,
  level_sound_event, client_cache_blob_status, transfer, unknown,
}
use gophertunnel.Packet.Kind.RoundTrip.{IsPacket}
use gophertunnel.Packet.Pool.{lookup, server_pool}

-- Each modelled packet is registered in the server's pool under the number that its ID method
-- returns, with the zero value of its own type.
pub lookup-server_pool : (pk : Packet) → IsPacket pk → lookup (id pk) server_pool ≡ some (fresh pk)
unfolding lookup
lookup-server_pool (request_network_settings pk) h = refl
lookup-server_pool (network_settings pk) h = refl
lookup-server_pool (login pk) h = refl
lookup-server_pool (play_status pk) h = refl
lookup-server_pool (server_to_client_handshake pk) h = refl
lookup-server_pool (client_cache_status pk) h = refl
lookup-server_pool (request_chunk_radius pk) h = refl
lookup-server_pool (chunk_radius_updated pk) h = refl
lookup-server_pool (set_local_player_as_initialised pk) h = refl
lookup-server_pool (respawn pk) h = refl
lookup-server_pool (set_spawn_position pk) h = refl
lookup-server_pool (change_dimension pk) h = refl
lookup-server_pool (resource_packs_info pk) h = refl
lookup-server_pool (resource_pack_data_info pk) h = refl
lookup-server_pool (resource_pack_chunk_data pk) h = refl
lookup-server_pool (resource_pack_chunk_request pk) h = refl
lookup-server_pool (resource_pack_stack pk) h = refl
lookup-server_pool (move_player pk) h = refl
lookup-server_pool (motion_prediction_hints pk) h = refl
lookup-server_pool (set_actor_motion pk) h = refl
lookup-server_pool (correct_player_move_prediction pk) h = refl
lookup-server_pool (movement_effect pk) h = refl
lookup-server_pool (take_item_actor pk) h = refl
lookup-server_pool (remove_actor pk) h = refl
lookup-server_pool (actor_event pk) h = refl
lookup-server_pool (mob_effect pk) h = refl
lookup-server_pool (set_actor_link pk) h = refl
lookup-server_pool (interact pk) h = refl
lookup-server_pool (actor_pick_request pk) h = refl
lookup-server_pool (hurt_armour pk) h = refl
lookup-server_pool (animate_entity pk) h = refl
lookup-server_pool (update_block pk) h = refl
lookup-server_pool (update_block_synced pk) h = refl
lookup-server_pool (block_event pk) h = refl
lookup-server_pool (block_pick_request pk) h = refl
lookup-server_pool (update_sub_chunk_blocks pk) h = refl
lookup-server_pool (player_action pk) h = refl
lookup-server_pool (level_event pk) h = refl
lookup-server_pool (container_open pk) h = refl
lookup-server_pool (container_close pk) h = refl
lookup-server_pool (container_set_data pk) h = refl
lookup-server_pool (player_hot_bar pk) h = refl
lookup-server_pool (completed_using_item pk) h = refl
lookup-server_pool (set_player_inventory_options pk) h = refl
lookup-server_pool (set_title pk) h = refl
lookup-server_pool (boss_event pk) h = refl
lookup-server_pool (set_display_objective pk) h = refl
lookup-server_pool (set_hud pk) h = refl
lookup-server_pool (modal_form_request pk) h = refl
lookup-server_pool (modal_form_response pk) h = refl
lookup-server_pool (toast_request pk) h = refl
lookup-server_pool (set_time pk) h = refl
lookup-server_pool (set_difficulty pk) h = refl
lookup-server_pool (set_commands_enabled pk) h = refl
lookup-server_pool (network_stack_latency pk) h = refl
lookup-server_pool (level_sound_event pk) h = refl
lookup-server_pool (client_cache_blob_status pk) h = refl
lookup-server_pool (transfer pk) h = refl
lookup-server_pool (unknown packet_id payload) h = absurd h
