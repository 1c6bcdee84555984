-- ===== src/Packet/Blocks.antt =====
-- The packets about single blocks (minecraft/protocol/packet): their structs and their
-- Marshal functions, which serve both directions.
pub mod RoundTrip
use gophertunnel.Prelude.{Bool, true, false, List, [], ℕ}
use gophertunnel.Io.{
  M, ◌>>=◌, pure, Io, Optional, Vec3, Vec2, BlockPos, ChunkPos, SubChunkPos, Rgba, func_slice,
  func_slice_uint32_length, optional_func, replicate,
}

-- packet/update_block.go
pub record UpdateBlock : Type 0 where
  pub position : BlockPos
  pub new_block_runtime_id : ℕ
  pub flags : ℕ
  pub layer : ℕ

abbrev pub new_update_block : UpdateBlock
new_update_block = record {
  position = (record { x = 0; y = 0; z = 0 });
  new_block_runtime_id = 0;
  flags = 0;
  layer = 0;
}

unfoldable pub marshal_update_block : Io → UpdateBlock → M UpdateBlock
marshal_update_block io pk = do
  position ← io.block_pos pk.position
  new_block_runtime_id ← io.varuint32 pk.new_block_runtime_id
  flags ← io.varuint32 pk.flags
  layer ← io.varuint32 pk.layer
  pure (record {
    position = position;
    new_block_runtime_id = new_block_runtime_id;
    flags = flags;
    layer = layer;
  })

-- packet/update_block_synced.go
pub record UpdateBlockSynced : Type 0 where
  pub position : BlockPos
  pub new_block_runtime_id : ℕ
  pub flags : ℕ
  pub layer : ℕ
  pub entity_unique_id : ℕ
  pub transition_type : ℕ

abbrev pub new_update_block_synced : UpdateBlockSynced
new_update_block_synced = record {
  position = (record { x = 0; y = 0; z = 0 });
  new_block_runtime_id = 0;
  flags = 0;
  layer = 0;
  entity_unique_id = 0;
  transition_type = 0;
}

unfoldable pub marshal_update_block_synced : Io → UpdateBlockSynced → M UpdateBlockSynced
marshal_update_block_synced io pk = do
  position ← io.block_pos pk.position
  new_block_runtime_id ← io.varuint32 pk.new_block_runtime_id
  flags ← io.varuint32 pk.flags
  layer ← io.varuint32 pk.layer
  entity_unique_id ← io.actor_unique_id_varuint64 pk.entity_unique_id
  transition_type ← io.varuint64 pk.transition_type
  pure (record {
    position = position;
    new_block_runtime_id = new_block_runtime_id;
    flags = flags;
    layer = layer;
    entity_unique_id = entity_unique_id;
    transition_type = transition_type;
  })

-- packet/block_event.go
pub record BlockEvent : Type 0 where
  pub position : BlockPos
  pub event_type : ℕ
  pub event_data : ℕ

abbrev pub new_block_event : BlockEvent
new_block_event = record {
  position = (record { x = 0; y = 0; z = 0 });
  event_type = 0;
  event_data = 0;
}

unfoldable pub marshal_block_event : Io → BlockEvent → M BlockEvent
marshal_block_event io pk = do
  position ← io.block_pos pk.position
  event_type ← io.varint32 pk.event_type
  event_data ← io.varint32 pk.event_data
  pure (record { position = position; event_type = event_type; event_data = event_data })

-- packet/block_pick_request.go
pub record BlockPickRequest : Type 0 where
  pub position : BlockPos
  pub add_block_nbt : Bool
  pub hot_bar_slot : ℕ

abbrev pub new_block_pick_request : BlockPickRequest
new_block_pick_request = record {
  position = (record { x = 0; y = 0; z = 0 });
  add_block_nbt = false;
  hot_bar_slot = 0;
}

unfoldable pub marshal_block_pick_request : Io → BlockPickRequest → M BlockPickRequest
marshal_block_pick_request io pk = do
  position ← io.block_pos pk.position
  add_block_nbt ← io.bool pk.add_block_nbt
  hot_bar_slot ← io.uint8 pk.hot_bar_slot
  pure (record { position = position; add_block_nbt = add_block_nbt; hot_bar_slot = hot_bar_slot })
