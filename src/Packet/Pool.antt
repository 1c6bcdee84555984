-- ===== src/Packet/Pool.antt =====
-- minecraft/protocol/packet/pool.go: which packet an ID stands for, in each direction. A pool is the
-- list of the IDs with the packet that their function makes, here those of the packets modelled.
pub mod Known
use gophertunnel.Prelude.{ℕ, Option, none, some, List, [], ◌∷◌, ◌==◌, if◌then◌else◌}
use gophertunnel.Packet.Login.{
  new_request_network_settings, new_network_settings, new_login, new_play_status,
  new_server_to_client_handshake, new_client_cache_status,
}
use gophertunnel.Packet.Spawning.{
  new_request_chunk_radius, new_chunk_radius_updated, new_set_local_player_as_initialised,
  new_respawn, new_set_spawn_position, new_change_dimension,
}
use gophertunnel.Packet.PackInfo.{new_resource_packs_info, new_resource_pack_data_info}
use gophertunnel.Packet.PackTransfer.{
  new_resource_pack_chunk_data, new_resource_pack_chunk_request, new_resource_pack_stack,
}
use gophertunnel.Packet.Movement.{
  new_move_player, new_motion_prediction_hints, new_set_actor_motion,
}
use gophertunnel.Packet.Prediction.{new_correct_player_move_prediction, new_movement_effect}
use gophertunnel.Packet.Actors.{
  new_take_item_actor, new_remove_actor, new_actor_event, new_mob_effect,
}
use gophertunnel.Packet.Interaction.{
  new_set_actor_link, new_interact, new_actor_pick_request, new_hurt_armour, new_animate_entity,
}
use gophertunnel.Packet.Blocks.{
  new_update_block, new_update_block_synced, new_block_event, new_block_pick_request,
}
use gophertunnel.Packet.BlockChanges.{
  new_update_sub_chunk_blocks, new_player_action, new_level_event,
}
use gophertunnel.Packet.Containers.{
  new_container_open, new_container_close, new_container_set_data, new_player_hot_bar,
  new_completed_using_item, new_set_player_inventory_options,
}
use gophertunnel.Packet.Screen.{
  new_set_title, new_boss_event, new_set_display_objective, new_set_hud,
}
use gophertunnel.Packet.Forms.{new_modal_form_request, new_modal_form_response, new_toast_request}
use gophertunnel.Packet.World.{
  new_set_time, new_set_difficulty, new_set_commands_enabled, new_network_stack_latency,
  new_level_sound_event, new_client_cache_blob_status,
}
use gophertunnel.Packet.Transfers.{new_transfer}
use gophertunnel.Packet.Kind.{
  Packet, request_network_settings, network_settings, login, play_status,
  server_to_client_handshake, client_cache_status, request_chunk_radius, chunk_radius_updated,
  set_local_player_as_initialised, respawn, set_spawn_position, change_dimension,
  resource_packs_info, resource_pack_data_info, resource_pack_chunk_data,
  resource_pack_chunk_request, resource_pack_stack, move_player, motion_prediction_hints,
  set_actor_motion, correct_player_move_prediction, movement_effect, take_item_actor, remove_actor,
  actor_event, mob_effect, set_actor_link, interact, actor_pick_request, hurt_armour,
  animate_entity, update_block, update_block_synced, block_event, block_pick_request,
  update_sub_chunk_blocks, player_action, level_event, container_open, container_close,
  container_set_data, player_hot_bar, completed_using_item, set_player_inventory_options, set_title,
  boss_event, set_display_objective, set_hud, modal_form_request, modal_form_response,
  toast_request, set_time, set_difficulty, set_commands_enabled, network_stack_latency,
  level_sound_event, client_cache_blob_status, transfer,
}

abbrev pub Pool : Type 0
Pool = List (ℕ × Packet)

-- `pool[id]`
unfoldable pub lookup : ℕ → Pool → Option Packet
lookup id [] = none
lookup id ((i, pk) ∷ pool) = let rest = lookup id pool in if i == id then some pk else rest

-- `serverOriginating`
abbrev pub server_pool : Pool
server_pool =
    (193, request_network_settings new_request_network_settings)
    ∷ (143, network_settings new_network_settings)
    ∷ (1, login new_login)
    ∷ (2, play_status new_play_status)
    ∷ (3, server_to_client_handshake new_server_to_client_handshake)
    ∷ (129, client_cache_status new_client_cache_status)
    ∷ (69, request_chunk_radius new_request_chunk_radius)
    ∷ (70, chunk_radius_updated new_chunk_radius_updated)
    ∷ (113, set_local_player_as_initialised new_set_local_player_as_initialised)
    ∷ (45, respawn new_respawn)
    ∷ (43, set_spawn_position new_set_spawn_position)
    ∷ (61, change_dimension new_change_dimension)
    ∷ (6, resource_packs_info new_resource_packs_info)
    ∷ (82, resource_pack_data_info new_resource_pack_data_info)
    ∷ (83, resource_pack_chunk_data new_resource_pack_chunk_data)
    ∷ (84, resource_pack_chunk_request new_resource_pack_chunk_request)
    ∷ (7, resource_pack_stack new_resource_pack_stack)
    ∷ (19, move_player new_move_player)
    ∷ (157, motion_prediction_hints new_motion_prediction_hints)
    ∷ (40, set_actor_motion new_set_actor_motion)
    ∷ (161, correct_player_move_prediction new_correct_player_move_prediction)
    ∷ (318, movement_effect new_movement_effect)
    ∷ (17, take_item_actor new_take_item_actor)
    ∷ (14, remove_actor new_remove_actor)
    ∷ (27, actor_event new_actor_event)
    ∷ (28, mob_effect new_mob_effect)
    ∷ (41, set_actor_link new_set_actor_link)
    ∷ (33, interact new_interact)
    ∷ (35, actor_pick_request new_actor_pick_request)
    ∷ (38, hurt_armour new_hurt_armour)
    ∷ (158, animate_entity new_animate_entity)
    ∷ (21, update_block new_update_block)
    ∷ (110, update_block_synced new_update_block_synced)
    ∷ (26, block_event new_block_event)
    ∷ (34, block_pick_request new_block_pick_request)
    ∷ (172, update_sub_chunk_blocks new_update_sub_chunk_blocks)
    ∷ (36, player_action new_player_action)
    ∷ (25, level_event new_level_event)
    ∷ (46, container_open new_container_open)
    ∷ (47, container_close new_container_close)
    ∷ (51, container_set_data new_container_set_data)
    ∷ (48, player_hot_bar new_player_hot_bar)
    ∷ (142, completed_using_item new_completed_using_item)
    ∷ (307, set_player_inventory_options new_set_player_inventory_options)
    ∷ (88, set_title new_set_title)
    ∷ (74, boss_event new_boss_event)
    ∷ (107, set_display_objective new_set_display_objective)
    ∷ (308, set_hud new_set_hud)
    ∷ (100, modal_form_request new_modal_form_request)
    ∷ (101, modal_form_response new_modal_form_response)
    ∷ (186, toast_request new_toast_request)
    ∷ (10, set_time new_set_time)
    ∷ (60, set_difficulty new_set_difficulty)
    ∷ (59, set_commands_enabled new_set_commands_enabled)
    ∷ (115, network_stack_latency new_network_stack_latency)
    ∷ (123, level_sound_event new_level_sound_event)
    ∷ (135, client_cache_blob_status new_client_cache_blob_status)
    ∷ (85, transfer new_transfer)
    ∷ []

-- `clientOriginating`
abbrev pub client_pool : Pool
client_pool =
    (193, request_network_settings new_request_network_settings)
    ∷ (1, login new_login)
    ∷ (129, client_cache_status new_client_cache_status)
    ∷ (69, request_chunk_radius new_request_chunk_radius)
    ∷ (113, set_local_player_as_initialised new_set_local_player_as_initialised)
    ∷ (45, respawn new_respawn)
    ∷ (84, resource_pack_chunk_request new_resource_pack_chunk_request)
    ∷ (19, move_player new_move_player)
    ∷ (27, actor_event new_actor_event)
    ∷ (41, set_actor_link new_set_actor_link)
    ∷ (33, interact new_interact)
    ∷ (35, actor_pick_request new_actor_pick_request)
    ∷ (21, update_block new_update_block)
    ∷ (34, block_pick_request new_block_pick_request)
    ∷ (36, player_action new_player_action)
    ∷ (46, container_open new_container_open)
    ∷ (47, container_close new_container_close)
    ∷ (307, set_player_inventory_options new_set_player_inventory_options)
    ∷ (74, boss_event new_boss_event)
    ∷ (101, modal_form_response new_modal_form_response)
    ∷ (115, network_stack_latency new_network_stack_latency)
    ∷ (123, level_sound_event new_level_sound_event)
    ∷ (135, client_cache_blob_status new_client_cache_blob_status)
    ∷ []
