-- ===== src/Packet/PackTransfer/RoundTrip.antt =====
-- PackTransfer: a fresh packet is read back as it was written, field by field.
use gophertunnel.Prelude.{Bool}
use gophertunnel.Io.Sim.{Sim, step, done}
use gophertunnel.Io.Reader.{reader}
use gophertunnel.Io.Writer.{writer}
use gophertunnel.Io.Prims.{bool-Sim, uint32-Sim, int32-Sim, uint64-Sim, string-Sim, byte_slice-Sim}
use gophertunnel.Io.Values.{
  IsU32, IsU64, IsText, IsSlice, func_slice-Sim, func_slice_uint32_length-Sim,
}
use gophertunnel.Packet.PackTransfer.{
  ResourcePackChunkData, new_resource_pack_chunk_data, marshal_resource_pack_chunk_data,
  ResourcePackChunkRequest, new_resource_pack_chunk_request, marshal_resource_pack_chunk_request,
  StackResourcePack, new_stack_resource_pack, marshal_stack_resource_pack, ExperimentData,
  new_experiment_data, marshal_experiment_data, ResourcePackStack, new_resource_pack_stack,
  marshal_resource_pack_stack,
}

-- ResourcePackChunkData
pub record IsResourcePackChunkData (pk : ResourcePackChunkData) : Type 0 where
  pub uuid : IsText pk.uuid
  pub chunk_index : IsU32 pk.chunk_index
  pub data_offset : IsU64 pk.data_offset
  pub data' : IsText pk.data'

pub marshal_resource_pack_chunk_data-Sim :
    (limits : Bool) (pk : ResourcePackChunkData)
    → IsResourcePackChunkData pk
    → Sim 1
        (marshal_resource_pack_chunk_data writer pk)
        (marshal_resource_pack_chunk_data (reader limits) new_resource_pack_chunk_data)
        pk
unfolding marshal_resource_pack_chunk_data
marshal_resource_pack_chunk_data-Sim limits pk h = step _ _ (string-Sim _ _ h.uuid) (
    step _ _ (uint32-Sim _ _ h.chunk_index)
      (step _ _ (uint64-Sim _ _ h.data_offset) (step _ _ (byte_slice-Sim _ _ h.data') done)))

-- ResourcePackChunkRequest
pub record IsResourcePackChunkRequest (pk : ResourcePackChunkRequest) : Type 0 where
  pub uuid : IsText pk.uuid
  pub chunk_index : IsU32 pk.chunk_index

pub marshal_resource_pack_chunk_request-Sim :
    (limits : Bool) (pk : ResourcePackChunkRequest)
    → IsResourcePackChunkRequest pk
    → Sim 1
        (marshal_resource_pack_chunk_request writer pk)
        (marshal_resource_pack_chunk_request (reader limits) new_resource_pack_chunk_request)
        pk
unfolding marshal_resource_pack_chunk_request
marshal_resource_pack_chunk_request-Sim limits pk h =
    step _ _ (string-Sim _ _ h.uuid) (step _ _ (int32-Sim _ _ h.chunk_index) done)

-- StackResourcePack
pub record IsStackResourcePack (pk : StackResourcePack) : Type 0 where
  pub uuid : IsText pk.uuid
  pub version : IsText pk.version
  pub sub_pack_name : IsText pk.sub_pack_name

pub marshal_stack_resource_pack-Sim :
    (limits : Bool) (pk : StackResourcePack)
    → IsStackResourcePack pk
    → Sim 1
        (marshal_stack_resource_pack writer pk)
        (marshal_stack_resource_pack (reader limits) new_stack_resource_pack)
        pk
unfolding marshal_stack_resource_pack
marshal_stack_resource_pack-Sim limits pk h =
    step _ _ (string-Sim _ _ h.uuid)
      (step _ _ (string-Sim _ _ h.version) (step _ _ (string-Sim _ _ h.sub_pack_name) done))

-- ExperimentData
pub record IsExperimentData (pk : ExperimentData) : Type 0 where
  pub name : IsText pk.name

pub marshal_experiment_data-Sim :
    (limits : Bool) (pk : ExperimentData)
    → IsExperimentData pk
    → Sim 1
        (marshal_experiment_data writer pk)
        (marshal_experiment_data (reader limits) new_experiment_data)
        pk
unfolding marshal_experiment_data
marshal_experiment_data-Sim limits pk h =
    step _ _ (string-Sim _ _ h.name) (step _ _ (bool-Sim _ _) done)

-- ResourcePackStack
pub record IsResourcePackStack (pk : ResourcePackStack) : Type 0 where
  pub texture_packs : IsSlice IsStackResourcePack pk.texture_packs
  pub base_game_version : IsText pk.base_game_version
  pub experiments : IsSlice IsExperimentData pk.experiments

pub marshal_resource_pack_stack-Sim :
    (limits : Bool) (pk : ResourcePackStack)
    → IsResourcePackStack pk
    → Sim 1
        (marshal_resource_pack_stack writer pk)
        (marshal_resource_pack_stack (reader limits) new_resource_pack_stack)
        pk
unfolding marshal_resource_pack_stack
marshal_resource_pack_stack-Sim limits pk h = step _ _ (bool-Sim _ _) (
    step _ _
      (func_slice-Sim IsStackResourcePack new_stack_resource_pack _ _
        (marshal_stack_resource_pack-Sim limits) limits _ _ h.texture_packs)
      (step _ _ (string-Sim _ _ h.base_game_version) (
        step _ _
          (func_slice_uint32_length-Sim IsExperimentData new_experiment_data _ _
            (marshal_experiment_data-Sim limits) limits _ _ h.experiments)
          (step _ _ (bool-Sim _ _) (step _ _ (bool-Sim _ _) done)))))
