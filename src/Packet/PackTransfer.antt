-- ===== src/Packet/PackTransfer.antt =====
-- The packets that carry resource packs (minecraft/protocol/packet): their structs and their
-- Marshal functions, which serve both directions.
pub mod RoundTrip
use gophertunnel.Prelude.{Bool, true, false, List, [], ℕ}
use gophertunnel.Io.{
  M, ◌>>=◌, pure, Io, Optional, Vec3, Vec2, BlockPos, ChunkPos, SubChunkPos, Rgba, func_slice,
  func_slice_uint32_length, optional_func, replicate,
}

-- packet/resource_pack_chunk_data.go
pub record ResourcePackChunkData : Type 0 where
  pub uuid : List ℕ
  pub chunk_index : ℕ
  pub data_offset : ℕ
  pub data' : List ℕ

abbrev pub new_resource_pack_chunk_data : ResourcePackChunkData
new_resource_pack_chunk_data = record { uuid = []; chunk_index = 0; data_offset = 0; data' = [] }

unfoldable pub marshal_resource_pack_chunk_data :
    Io → ResourcePackChunkData → M ResourcePackChunkData
marshal_resource_pack_chunk_data io pk = do
  uuid ← io.string pk.uuid
  chunk_index ← io.uint32 pk.chunk_index
  data_offset ← io.uint64 pk.data_offset
  data' ← io.byte_slice pk.data'
  pure (record { uuid = uuid; chunk_index = chunk_index; data_offset = data_offset; data' = data' })

-- packet/resource_pack_chunk_request.go
pub record ResourcePackChunkRequest : Type 0 where
  pub uuid : List ℕ
  pub chunk_index : ℕ

abbrev pub new_resource_pack_chunk_request : ResourcePackChunkRequest
new_resource_pack_chunk_request = record { uuid = []; chunk_index = 0 }

unfoldable pub marshal_resource_pack_chunk_request :
    Io → ResourcePackChunkRequest → M ResourcePackChunkRequest
marshal_resource_pack_chunk_request io pk = do
  uuid ← io.string pk.uuid
  chunk_index ← io.int32 pk.chunk_index
  pure (record { uuid = uuid; chunk_index = chunk_index })

-- resource_pack.go
pub record StackResourcePack : Type 0 where
  pub uuid : List ℕ
  pub version : List ℕ
  pub sub_pack_name : List ℕ

abbrev pub new_stack_resource_pack : StackResourcePack
new_stack_resource_pack = record { uuid = []; version = []; sub_pack_name = [] }

unfoldable pub marshal_stack_resource_pack : Io → StackResourcePack → M StackResourcePack
marshal_stack_resource_pack io pk = do
  uuid ← io.string pk.uuid
  version ← io.string pk.version
  sub_pack_name ← io.string pk.sub_pack_name
  pure (record { uuid = uuid; version = version; sub_pack_name = sub_pack_name })

-- experiments.go
pub record ExperimentData : Type 0 where
  pub name : List ℕ
  pub enabled : Bool

abbrev pub new_experiment_data : ExperimentData
new_experiment_data = record { name = []; enabled = false }

unfoldable pub marshal_experiment_data : Io → ExperimentData → M ExperimentData
marshal_experiment_data io pk = do
  name ← io.string pk.name
  enabled ← io.bool pk.enabled
  pure (record { name = name; enabled = enabled })

-- packet/resource_pack_stack.go
pub record ResourcePackStack : Type 0 where
  pub texture_pack_required : Bool
  pub texture_packs : List StackResourcePack
  pub base_game_version : List ℕ
  pub experiments : List ExperimentData
  pub experiments_previously_toggled : Bool
  pub include_editor_packs : Bool

abbrev pub new_resource_pack_stack : ResourcePackStack
new_resource_pack_stack = record {
  texture_pack_required = false;
  texture_packs = [];
  base_game_version = [];
  experiments = [];
  experiments_previously_toggled = false;
  include_editor_packs = false;
}

unfoldable pub marshal_resource_pack_stack : Io → ResourcePackStack → M ResourcePackStack
marshal_resource_pack_stack io pk = do
  texture_pack_required ← io.bool pk.texture_pack_required
  texture_packs ←
      func_slice io new_stack_resource_pack pk.texture_packs (marshal_stack_resource_pack io)
  base_game_version ← io.string pk.base_game_version
  experiments ←
      func_slice_uint32_length io new_experiment_data pk.experiments (marshal_experiment_data io)
  experiments_previously_toggled ← io.bool pk.experiments_previously_toggled
  include_editor_packs ← io.bool pk.include_editor_packs
  pure (record {
    texture_pack_required = texture_pack_required;
    texture_packs = texture_packs;
    base_game_version = base_game_version;
    experiments = experiments;
    experiments_previously_toggled = experiments_previously_toggled;
    include_editor_packs = include_editor_packs;
  })
