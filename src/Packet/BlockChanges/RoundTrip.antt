-- ===== src/Packet/BlockChanges/RoundTrip.antt =====
-- BlockChanges: a fresh packet is read back as it was written, field by field.
use gophertunnel.Prelude.{Bool}
use gophertunnel.Io.Sim.{Sim, step, done}
use gophertunnel.Io.Reader.{reader}
use gophertunnel.Io.Writer.{writer}
use gophertunnel.Io.Prims.{varint32-Sim, varuint32-Sim, varuint64-Sim, vec3-Sim, block_pos-Sim}
use gophertunnel.Io.Values.{IsU32, IsU64, IsVec3, IsBlockPos, IsSlice, func_slice-Sim}
use gophertunnel.Packet.BlockChanges.{
  BlockChangeEntry, new_block_change_entry, marshal_block_change_entry, UpdateSubChunkBlocks,
  new_update_sub_chunk_blocks, marshal_update_sub_chunk_blocks, PlayerAction, new_player_action,
  marshal_player_action, LevelEvent, new_level_event, marshal_level_event,
}

-- BlockChangeEntry
pub record IsBlockChangeEntry (pk : BlockChangeEntry) : Type 0 where
  pub block_pos : IsBlockPos pk.block_pos
  pub block_runtime_id : IsU32 pk.block_runtime_id
  pub flags : IsU32 pk.flags
  pub synced_update_entity_unique_id : IsU64 pk.synced_update_entity_unique_id
  pub synced_update_type : IsU32 pk.synced_update_type

pub marshal_block_change_entry-Sim :
    (limits : Bool) (pk : BlockChangeEntry)
    → IsBlockChangeEntry pk
    → Sim 1
        (marshal_block_change_entry writer pk)
        (marshal_block_change_entry (reader limits) new_block_change_entry)
        pk
unfolding marshal_block_change_entry
marshal_block_change_entry-Sim limits pk h = step _ _ (block_pos-Sim _ _ h.block_pos) (
    step _ _ (varuint32-Sim _ _ h.block_runtime_id) (
      step _ _ (varuint32-Sim _ _ h.flags) (
        step _ _ (varuint64-Sim _ _ h.synced_update_entity_unique_id)
          (step _ _ (varuint32-Sim _ _ h.synced_update_type) done))))

-- UpdateSubChunkBlocks
pub record IsUpdateSubChunkBlocks (pk : UpdateSubChunkBlocks) : Type 0 where
  pub position : IsBlockPos pk.position
  pub blocks : IsSlice IsBlockChangeEntry pk.blocks
  pub extra : IsSlice IsBlockChangeEntry pk.extra

pub marshal_update_sub_chunk_blocks-Sim :
    (limits : Bool) (pk : UpdateSubChunkBlocks)
    → IsUpdateSubChunkBlocks pk
    → Sim 1
        (marshal_update_sub_chunk_blocks writer pk)
        (marshal_update_sub_chunk_blocks (reader limits) new_update_sub_chunk_blocks)
        pk
unfolding marshal_update_sub_chunk_blocks
marshal_update_sub_chunk_blocks-Sim limits pk h = step _ _ (block_pos-Sim _ _ h.position) (
    step _ _
      (func_slice-Sim IsBlockChangeEntry new_block_change_entry _ _
        (marshal_block_change_entry-Sim limits) limits _ _ h.blocks)
      (step _ _
        (func_slice-Sim IsBlockChangeEntry new_block_change_entry _ _
          (marshal_block_change_entry-Sim limits) limits _ _ h.extra)
        done))

-- PlayerAction
pub record IsPlayerAction (pk : PlayerAction) : Type 0 where
  pub entity_runtime_id : IsU64 pk.entity_runtime_id
  pub action_type : IsU32 pk.action_type
  pub block_position : IsBlockPos pk.block_position
  pub result_position : IsBlockPos pk.result_position
  pub block_face : IsU32 pk.block_face

pub marshal_player_action-Sim :
    (limits : Bool) (pk : PlayerAction)
    → IsPlayerAction pk
    → Sim 1
        (marshal_player_action writer pk)
        (marshal_player_action (reader limits) new_player_action)
        pk
unfolding marshal_player_action
marshal_player_action-Sim limits pk h = step _ _ (varuint64-Sim _ _ h.entity_runtime_id) (
    step _ _ (varint32-Sim _ _ h.action_type) (
      step _ _ (block_pos-Sim _ _ h.block_position) (
        step _ _ (block_pos-Sim _ _ h.result_position)
          (step _ _ (varint32-Sim _ _ h.block_face) done))))

-- LevelEvent
pub record IsLevelEvent (pk : LevelEvent) : Type 0 where
  pub event_type : IsU32 pk.event_type
  pub position : IsVec3 pk.position
  pub event_data : IsU32 pk.event_data

pub marshal_level_event-Sim :
    (limits : Bool) (pk : LevelEvent)
    → IsLevelEvent pk
    → Sim 1 (marshal_level_event writer pk) (marshal_level_event (reader limits) new_level_event) pk
unfolding marshal_level_event
marshal_level_event-Sim limits pk h =
    step _ _ (varint32-Sim _ _ h.event_type)
      (step _ _ (vec3-Sim _ _ h.position) (step _ _ (varint32-Sim _ _ h.event_data) done))
