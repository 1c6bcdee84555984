-- ===== src/Packet/Spawning/RoundTrip.antt =====
-- Spawning: a fresh packet is read back as it was written, field by field.
use gophertunnel.Prelude.{Bool}
use gophertunnel.Io.Sim.{Sim, step, done}
use gophertunnel.Io.Reader.{reader}
use gophertunnel.Io.Writer.{writer}
use gophertunnel.Io.Prims.{
  uint8-Sim, bool-Sim, uint32-Sim, varint32-Sim, varuint64-Sim, vec3-Sim, block_pos-Sim,
}
use gophertunnel.Io.Values.{IsU32, IsU64, IsVec3, IsBlockPos, IsOptional, optional_func-Sim}
use gophertunnel.Packet.Spawning.{
  RequestChunkRadius, new_request_chunk_radius, marshal_request_chunk_radius, ChunkRadiusUpdated,
  new_chunk_radius_updated, marshal_chunk_radius_updated, SetLocalPlayerAsInitialised,
  new_set_local_player_as_initialised, marshal_set_local_player_as_initialised, Respawn,
  new_respawn, marshal_respawn, SetSpawnPosition, new_set_spawn_position,
  marshal_set_spawn_position, ChangeDimension, new_change_dimension, marshal_change_dimension,
}

-- RequestChunkRadius
pub record IsRequestChunkRadius (pk : RequestChunkRadius) : Type 0 where
  pub chunk_radius : IsU32 pk.chunk_radius

pub marshal_request_chunk_radius-Sim :
    (limits : Bool) (pk : RequestChunkRadius)
    → IsRequestChunkRadius pk
    → Sim 1
        (marshal_request_chunk_radius writer pk)
        (marshal_request_chunk_radius (reader limits) new_request_chunk_radius)
        pk
unfolding marshal_request_chunk_radius
marshal_request_chunk_radius-Sim limits pk h =
    step _ _ (varint32-Sim _ _ h.chunk_radius) (step _ _ (uint8-Sim _ _) done)

-- ChunkRadiusUpdated
pub record IsChunkRadiusUpdated (pk : ChunkRadiusUpdated) : Type 0 where
  pub chunk_radius : IsU32 pk.chunk_radius

pub marshal_chunk_radius_updated-Sim :
    (limits : Bool) (pk : ChunkRadiusUpdated)
    → IsChunkRadiusUpdated pk
    → Sim 1
        (marshal_chunk_radius_updated writer pk)
        (marshal_chunk_radius_updated (reader limits) new_chunk_radius_updated)
        pk
unfolding marshal_chunk_radius_updated
marshal_chunk_radius_updated-Sim limits pk h = step _ _ (varint32-Sim _ _ h.chunk_radius) done

-- SetLocalPlayerAsInitialised
pub record IsSetLocalPlayerAsInitialised (pk : SetLocalPlayerAsInitialised) : Type 0 where
  pub entity_runtime_id : IsU64 pk.entity_runtime_id

pub marshal_set_local_player_as_initialised-Sim :
    (limits : Bool) (pk : SetLocalPlayerAsInitialised)
    → IsSetLocalPlayerAsInitialised pk
    → Sim 1
        (marshal_set_local_player_as_initialised writer pk)
        (marshal_set_local_player_as_initialised
          (reader limits)
          new_set_local_player_as_initialised)
        pk
unfolding marshal_set_local_player_as_initialised
marshal_set_local_player_as_initialised-Sim limits pk h =
    step _ _ (varuint64-Sim _ _ h.entity_runtime_id) done

-- Respawn
pub record IsRespawn (pk : Respawn) : Type 0 where
  pub position : IsVec3 pk.position
  pub entity_runtime_id : IsU64 pk.entity_runtime_id

pub marshal_respawn-Sim :
    (limits : Bool) (pk : Respawn)
    → IsRespawn pk
    → Sim 1 (marshal_respawn writer pk) (marshal_respawn (reader limits) new_respawn) pk
unfolding marshal_respawn
marshal_respawn-Sim limits pk h =
    step _ _ (vec3-Sim _ _ h.position)
      (step _ _ (uint8-Sim _ _) (step _ _ (varuint64-Sim _ _ h.entity_runtime_id) done))

-- SetSpawnPosition
pub record IsSetSpawnPosition (pk : SetSpawnPosition) : Type 0 where
  pub spawn_type : IsU32 pk.spawn_type
  pub position : IsBlockPos pk.position
  pub dimension : IsU32 pk.dimension
  pub spawn_position : IsBlockPos pk.spawn_position

pub marshal_set_spawn_position-Sim :
    (limits : Bool) (pk : SetSpawnPosition)
    → IsSetSpawnPosition pk
    → Sim 1
        (marshal_set_spawn_position writer pk)
        (marshal_set_spawn_position (reader limits) new_set_spawn_position)
        pk
unfolding marshal_set_spawn_position
marshal_set_spawn_position-Sim limits pk h = step _ _ (varint32-Sim _ _ h.spawn_type) (
    step _ _ (block_pos-Sim _ _ h.position) (
      step _ _ (varint32-Sim _ _ h.dimension) (step _ _ (block_pos-Sim _ _ h.spawn_position) done)))

-- ChangeDimension
pub record IsChangeDimension (pk : ChangeDimension) : Type 0 where
  pub dimension : IsU32 pk.dimension
  pub position : IsVec3 pk.position
  pub loading_screen_id : IsOptional IsU32 0 pk.loading_screen_id

pub marshal_change_dimension-Sim :
    (limits : Bool) (pk : ChangeDimension)
    → IsChangeDimension pk
    → Sim 1
        (marshal_change_dimension writer pk)
        (marshal_change_dimension (reader limits) new_change_dimension)
        pk
unfolding marshal_change_dimension
marshal_change_dimension-Sim limits pk h = step _ _ (varint32-Sim _ _ h.dimension) (
    step _ _ (vec3-Sim _ _ h.position) (
      step _ _ (bool-Sim _ _) (
        step _ _
          (optional_func-Sim IsU32 0 _ _ (λ v h. uint32-Sim v _ h) limits _ _ h.loading_screen_id)
          done)))
