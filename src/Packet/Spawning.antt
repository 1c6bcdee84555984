-- ===== src/Packet/Spawning.antt =====
-- The packets of the spawn sequence (minecraft/protocol/packet): their structs and their
-- Marshal functions, which serve both directions.
pub mod RoundTrip
use gophertunnel.Prelude.{Bool, true, false, List, [], ℕ}
use gophertunnel.Io.{
  M, ◌>>=◌, pure, Io, Optional, Vec3, Vec2, BlockPos, ChunkPos, SubChunkPos, Rgba, func_slice,
  func_slice_uint32_length, optional_func, replicate,
}

-- packet/request_chunk_radius.go
pub record RequestChunkRadius : Type 0 where
  pub chunk_radius : ℕ
  pub max_chunk_radius : ℕ

abbrev pub new_request_chunk_radius : RequestChunkRadius
new_request_chunk_radius = record { chunk_radius = 0; max_chunk_radius = 0 }

unfoldable pub marshal_request_chunk_radius : Io → RequestChunkRadius → M RequestChunkRadius
marshal_request_chunk_radius io pk = do
  chunk_radius ← io.varint32 pk.chunk_radius
  max_chunk_radius ← io.uint8 pk.max_chunk_radius
  pure (record { chunk_radius = chunk_radius; max_chunk_radius = max_chunk_radius })

-- packet/chunk_radius_updated.go
pub record ChunkRadiusUpdated : Type 0 where
  pub chunk_radius : ℕ

abbrev pub new_chunk_radius_updated : ChunkRadiusUpdated
new_chunk_radius_updated = record { chunk_radius = 0 }

unfoldable pub marshal_chunk_radius_updated : Io → ChunkRadiusUpdated → M ChunkRadiusUpdated
marshal_chunk_radius_updated io pk = do
  chunk_radius ← io.varint32 pk.chunk_radius
  pure (record { chunk_radius = chunk_radius })

-- packet/set_local_player_as_initialised.go
pub record SetLocalPlayerAsInitialised : Type 0 where
  pub entity_runtime_id : ℕ

abbrev pub new_set_local_player_as_initialised : SetLocalPlayerAsInitialised
new_set_local_player_as_initialised = record { entity_runtime_id = 0 }

unfoldable pub marshal_set_local_player_as_initialised :
    Io → SetLocalPlayerAsInitialised → M SetLocalPlayerAsInitialised
marshal_set_local_player_as_initialised io pk = do
  entity_runtime_id ← io.actor_runtime_id pk.entity_runtime_id
  pure (record { entity_runtime_id = entity_runtime_id })

-- packet/respawn.go
pub record Respawn : Type 0 where
  pub position : Vec3
  pub state : ℕ
  pub entity_runtime_id : ℕ

abbrev pub new_respawn : Respawn
new_respawn = record {
  position = (record { x = 0; y = 0; z = 0 });
  state = 0;
  entity_runtime_id = 0;
}

unfoldable pub marshal_respawn : Io → Respawn → M Respawn
marshal_respawn io pk = do
  position ← io.vec3 pk.position
  state ← io.uint8 pk.state
  entity_runtime_id ← io.actor_runtime_id pk.entity_runtime_id
  pure (record { position = position; state = state; entity_runtime_id = entity_runtime_id })

-- packet/set_spawn_position.go
pub record SetSpawnPosition : Type 0 where
  pub spawn_type : ℕ
  pub position : BlockPos
  pub dimension : ℕ
  pub spawn_position : BlockPos

abbrev pub new_set_spawn_position : SetSpawnPosition
new_set_spawn_position = record {
  spawn_type = 0;
  position = (record { x = 0; y = 0; z = 0 });
  dimension = 0;
  spawn_position = (record { x = 0; y = 0; z = 0 });
}

unfoldable pub marshal_set_spawn_position : Io → SetSpawnPosition → M SetSpawnPosition
marshal_set_spawn_position io pk = do
  spawn_type ← io.varint32 pk.spawn_type
  position ← io.block_pos pk.position
  dimension ← io.varint32 pk.dimension
  spawn_position ← io.block_pos pk.spawn_position
  pure (record {
    spawn_type = spawn_type;
    position = position;
    dimension = dimension;
    spawn_position = spawn_position;
  })

-- packet/change_dimension.go
pub record ChangeDimension : Type 0 where
  pub dimension : ℕ
  pub position : Vec3
  pub respawn : Bool
  pub loading_screen_id : Optional ℕ

abbrev pub new_change_dimension : ChangeDimension
new_change_dimension = record {
  dimension = 0;
  position = (record { x = 0; y = 0; z = 0 });
  respawn = false;
  loading_screen_id = (record { set = false; val = 0 });
}

unfoldable pub marshal_change_dimension : Io → ChangeDimension → M ChangeDimension
marshal_change_dimension io pk = do
  dimension ← io.varint32 pk.dimension
  position ← io.vec3 pk.position
  respawn ← io.bool pk.respawn
  loading_screen_id ← optional_func io pk.loading_screen_id io.uint32
  pure (record {
    dimension = dimension;
    position = position;
    respawn = respawn;
    loading_screen_id = loading_screen_id;
  })
