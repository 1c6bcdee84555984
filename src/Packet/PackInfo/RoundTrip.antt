-- ===== src/Packet/PackInfo/RoundTrip.antt =====
-- PackInfo: a fresh packet is read back as it was written, field by field.
use gophertunnel.Prelude.{Bool}
use gophertunnel.Io.Sim.{Sim, step, done}
use gophertunnel.Io.Reader.{reader}
use gophertunnel.Io.Writer.{writer}
use gophertunnel.Io.Prims.{uint8-Sim, bool-Sim, uint32-Sim, uint64-Sim, string-Sim, byte_slice-Sim}
use gophertunnel.Io.Values.{IsU32, IsU64, IsText, IsSlice, IsUuid, uuid-Sim, func_slice-Sim}
use gophertunnel.Packet.PackInfo.{
  TexturePackInfo, new_texture_pack_info, marshal_texture_pack_info, ResourcePacksInfo,
  new_resource_packs_info, marshal_resource_packs_info, ResourcePackDataInfo,
  new_resource_pack_data_info, marshal_resource_pack_data_info,
}

-- TexturePackInfo
pub record IsTexturePackInfo (pk : TexturePackInfo) : Type 0 where
  pub uuid : IsUuid pk.uuid
  pub version : IsText pk.version
  pub size : IsU64 pk.size
  pub content_key : IsText pk.content_key
  pub sub_pack_name : IsText pk.sub_pack_name
  pub content_identity : IsText pk.content_identity
  pub download_url : IsText pk.download_url

pub marshal_texture_pack_info-Sim :
    (limits : Bool) (pk : TexturePackInfo)
    → IsTexturePackInfo pk
    → Sim 1
        (marshal_texture_pack_info writer pk)
        (marshal_texture_pack_info (reader limits) new_texture_pack_info)
        pk
unfolding marshal_texture_pack_info
marshal_texture_pack_info-Sim limits pk h = step _ _ (uuid-Sim _ _ h.uuid) (
    step _ _ (string-Sim _ _ h.version) (
      step _ _ (uint64-Sim _ _ h.size) (
        step _ _ (string-Sim _ _ h.content_key) (
          step _ _ (string-Sim _ _ h.sub_pack_name) (
            step _ _ (string-Sim _ _ h.content_identity) (
              step _ _ (bool-Sim _ _) (
                step _ _ (bool-Sim _ _)
                  (step _ _ (bool-Sim _ _) (step _ _ (string-Sim _ _ h.download_url) done)))))))))

-- ResourcePacksInfo
pub record IsResourcePacksInfo (pk : ResourcePacksInfo) : Type 0 where
  pub world_template_uuid : IsUuid pk.world_template_uuid
  pub world_template_version : IsText pk.world_template_version
  pub texture_packs : IsSlice IsTexturePackInfo pk.texture_packs

pub marshal_resource_packs_info-Sim :
    (limits : Bool) (pk : ResourcePacksInfo)
    → IsResourcePacksInfo pk
    → Sim 1
        (marshal_resource_packs_info writer pk)
        (marshal_resource_packs_info (reader limits) new_resource_packs_info)
        pk
unfolding marshal_resource_packs_info
marshal_resource_packs_info-Sim limits pk h = step _ _ (bool-Sim _ _) (
    step _ _ (bool-Sim _ _) (
      step _ _ (bool-Sim _ _) (
        step _ _ (bool-Sim _ _) (
          step _ _ (uuid-Sim _ _ h.world_template_uuid) (
            step _ _ (string-Sim _ _ h.world_template_version) (
              step _ _
                (func_slice-Sim IsTexturePackInfo new_texture_pack_info _ _
                  (marshal_texture_pack_info-Sim limits) limits _ _ h.texture_packs)
                done))))))

-- ResourcePackDataInfo
pub record IsResourcePackDataInfo (pk : ResourcePackDataInfo) : Type 0 where
  pub uuid : IsText pk.uuid
  pub data_chunk_size : IsU32 pk.data_chunk_size
  pub chunk_count : IsU32 pk.chunk_count
  pub size : IsU64 pk.size
  pub hash : IsText pk.hash

pub marshal_resource_pack_data_info-Sim :
    (limits : Bool) (pk : ResourcePackDataInfo)
    → IsResourcePackDataInfo pk
    → Sim 1
        (marshal_resource_pack_data_info writer pk)
        (marshal_resource_pack_data_info (reader limits) new_resource_pack_data_info)
        pk
unfolding marshal_resource_pack_data_info
marshal_resource_pack_data_info-Sim limits pk h = step _ _ (string-Sim _ _ h.uuid) (
    step _ _ (uint32-Sim _ _ h.data_chunk_size) (
      step _ _ (uint32-Sim _ _ h.chunk_count) (
        step _ _ (uint64-Sim _ _ h.size) (
          step _ _ (byte_slice-Sim _ _ h.hash)
            (step _ _ (bool-Sim _ _) (step _ _ (uint8-Sim _ _) done))))))
