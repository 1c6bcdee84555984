-- ===== src/Packet/BlockChanges.antt =====
-- The packets about changes of blocks (minecraft/protocol/packet): their structs and their
-- Marshal functions, which serve both directions.
pub mod RoundTrip
use gophertunnel.Prelude.{Bool, true, false, List, [], ℕ}
use gophertunnel.Io.{
  M, ◌>>=◌, pure, Io, Optional, Vec3, Vec2, BlockPos, ChunkPos, SubChunkPos, Rgba, func_slice,
  func_slice_uint32_length, optional_func, replicate,
}

-- block.go
pub record BlockChangeEntry : Type 0 where
  pub block_pos : BlockPos
  pub block_runtime_id : ℕ
  pub flags : ℕ
  pub synced_update_entity_unique_id : ℕ
  pub synced_update_type : ℕ

abbrev pub new_block_change_entry : BlockChangeEntry
new_block_change_entry = record {
  block_pos = (record { x = 0; y = 0; z = 0 });
  block_runtime_id = 0;
  flags = 0;
  synced_update_entity_unique_id = 0;
  synced_update_type = 0;
}

unfoldable pub marshal_block_change_entry : Io → BlockChangeEntry → M BlockChangeEntry
marshal_block_change_entry io pk = do
  block_pos ← io.block_pos pk.block_pos
  block_runtime_id ← io.varuint32 pk.block_runtime_id
  flags ← io.varuint32 pk.flags
  synced_update_entity_unique_id ← io.actor_unique_id_varuint64 pk.synced_update_entity_unique_id
  synced_update_type ← io.varuint32 pk.synced_update_type
  pure (record {
    block_pos = block_pos;
    block_runtime_id = block_runtime_id;
    flags = flags;
    synced_update_entity_unique_id = synced_update_entity_unique_id;
    synced_update_type = synced_update_type;
  })

-- packet/update_sub_chunk_blocks.go
pub record UpdateSubChunkBlocks : Type 0 where
  pub position : BlockPos
  pub blocks : List BlockChangeEntry
  pub extra : List BlockChangeEntry

abbrev pub new_update_sub_chunk_blocks : UpdateSubChunkBlocks
new_update_sub_chunk_blocks = record {
  position = (record { x = 0; y = 0; z = 0 });
  blocks = [];
  extra = [];
}

unfoldable pub marshal_update_sub_chunk_blocks : Io → UpdateSubChunkBlocks → M UpdateSubChunkBlocks
marshal_update_sub_chunk_blocks io pk = do
  position ← io.block_pos pk.position
  blocks ← func_slice io new_block_change_entry pk.blocks (marshal_block_change_entry io)
  extra ← func_slice io new_block_change_entry pk.extra (marshal_block_change_entry io)
  pure (record { position = position; blocks = blocks; extra = extra })

-- packet/player_action.go
pub record PlayerAction : Type 0 where
  pub entity_runtime_id : ℕ
  pub action_type : ℕ
  pub block_position : BlockPos
  pub result_position : BlockPos
  pub block_face : ℕ

abbrev pub new_player_action : PlayerAction
new_player_action = record {
  entity_runtime_id = 0;
  action_type = 0;
  block_position = (record { x = 0; y = 0; z = 0 });
  result_position = (record { x = 0; y = 0; z = 0 });
  block_face = 0;
}

unfoldable pub marshal_player_action : Io → PlayerAction → M PlayerAction
marshal_player_action io pk = do
  entity_runtime_id ← io.actor_runtime_id pk.entity_runtime_id
  action_type ← io.varint32 pk.action_type
  block_position ← io.block_pos pk.block_position
  result_position ← io.block_pos pk.result_position
  block_face ← io.varint32 pk.block_face
  pure (record {
    entity_runtime_id = entity_runtime_id;
    action_type = action_type;
    block_position = block_position;
    result_position = result_position;
    block_face = block_face;
  })

-- packet/level_event.go
pub record LevelEvent : Type 0 where
  pub event_type : ℕ
  pub position : Vec3
  pub event_data : ℕ

abbrev pub new_level_event : LevelEvent
new_level_event = record {
  event_type = 0;
  position = (record { x = 0; y = 0; z = 0 });
  event_data = 0;
}

unfoldable pub marshal_level_event : Io → LevelEvent → M LevelEvent
marshal_level_event io pk = do
  event_type ← io.varint32 pk.event_type
  position ← io.vec3 pk.position
  event_data ← io.varint32 pk.event_data
  pure (record { event_type = event_type; position = position; event_data = event_data })
