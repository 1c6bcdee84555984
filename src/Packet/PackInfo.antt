-- ===== src/Packet/PackInfo.antt =====
-- The packets that announce resource packs (minecraft/protocol/packet): their structs and their
-- Marshal functions, which serve both directions.
pub mod RoundTrip
use gophertunnel.Prelude.{Bool, true, false, List, [], ℕ}
use gophertunnel.Io.{
  M, ◌>>=◌, pure, Io, Optional, Vec3, Vec2, BlockPos, ChunkPos, SubChunkPos, Rgba, func_slice,
  func_slice_uint32_length, optional_func, replicate,
}

-- resource_pack.go
pub record TexturePackInfo : Type 0 where
  pub uuid : List ℕ
  pub version : List ℕ
  pub size : ℕ
  pub content_key : List ℕ
  pub sub_pack_name : List ℕ
  pub content_identity : List ℕ
  pub has_scripts : Bool
  pub addon_pack : Bool
  pub rtx_enabled : Bool
  pub download_url : List ℕ

abbrev pub new_texture_pack_info : TexturePackInfo
new_texture_pack_info = record {
  uuid = (replicate 16 0);
  version = [];
  size = 0;
  content_key = [];
  sub_pack_name = [];
  content_identity = [];
  has_scripts = false;
  addon_pack = false;
  rtx_enabled = false;
  download_url = [];
}

unfoldable pub marshal_texture_pack_info : Io → TexturePackInfo → M TexturePackInfo
marshal_texture_pack_info io pk = do
  uuid ← io.uuid pk.uuid
  version ← io.string pk.version
  size ← io.uint64 pk.size
  content_key ← io.string pk.content_key
  sub_pack_name ← io.string pk.sub_pack_name
  content_identity ← io.string pk.content_identity
  has_scripts ← io.bool pk.has_scripts
  addon_pack ← io.bool pk.addon_pack
  rtx_enabled ← io.bool pk.rtx_enabled
  download_url ← io.string pk.download_url
  pure (record {
    uuid = uuid;
    version = version;
    size = size;
    content_key = content_key;
    sub_pack_name = sub_pack_name;
    content_identity = content_identity;
    has_scripts = has_scripts;
    addon_pack = addon_pack;
    rtx_enabled = rtx_enabled;
    download_url = download_url;
  })

-- packet/resource_packs_info.go
pub record ResourcePacksInfo : Type 0 where
  pub texture_pack_required : Bool
  pub has_addons : Bool
  pub has_scripts : Bool
  pub force_disable_vibrant_visuals : Bool
  pub world_template_uuid : List ℕ
  pub world_template_version : List ℕ
  pub texture_packs : List TexturePackInfo

abbrev pub new_resource_packs_info : ResourcePacksInfo
new_resource_packs_info = record {
  texture_pack_required = false;
  has_addons = false;
  has_scripts = false;
  force_disable_vibrant_visuals = false;
  world_template_uuid = (replicate 16 0);
  world_template_version = [];
  texture_packs = [];
}

unfoldable pub marshal_resource_packs_info : Io → ResourcePacksInfo → M ResourcePacksInfo
marshal_resource_packs_info io pk = do
  texture_pack_required ← io.bool pk.texture_pack_required
  has_addons ← io.bool pk.has_addons
  has_scripts ← io.bool pk.has_scripts
  force_disable_vibrant_visuals ← io.bool pk.force_disable_vibrant_visuals
  world_template_uuid ← io.uuid pk.world_template_uuid
  world_template_version ← io.string pk.world_template_version
  texture_packs ←
      func_slice io new_texture_pack_info pk.texture_packs (marshal_texture_pack_info io)
  pure (record {
    texture_pack_required = texture_pack_required;
    has_addons = has_addons;
    has_scripts = has_scripts;
    force_disable_vibrant_visuals = force_disable_vibrant_visuals;
    world_template_uuid = world_template_uuid;
    world_template_version = world_template_version;
    texture_packs = texture_packs;
  })

-- packet/resource_pack_data_info.go
pub record ResourcePackDataInfo : Type 0 where
  pub uuid : List ℕ
  pub data_chunk_size : ℕ
  pub chunk_count : ℕ
  pub size : ℕ
  pub hash : List ℕ
  pub premium : Bool
  pub pack_type : ℕ

abbrev pub new_resource_pack_data_info : ResourcePackDataInfo
new_resource_pack_data_info = record {
  uuid = [];
  data_chunk_size = 0;
  chunk_count = 0;
  size = 0;
  hash = [];
  premium = false;
  pack_type = 0;
}

unfoldable pub marshal_resource_pack_data_info : Io → ResourcePackDataInfo → M ResourcePackDataInfo
marshal_resource_pack_data_info io pk = do
  uuid ← io.string pk.uuid
  data_chunk_size ← io.uint32 pk.data_chunk_size
  chunk_count ← io.uint32 pk.chunk_count
  size ← io.uint64 pk.size
  hash ← io.byte_slice pk.hash
  premium ← io.bool pk.premium
  pack_type ← io.uint8 pk.pack_type
  pure (record {
    uuid = uuid;
    data_chunk_size = data_chunk_size;
    chunk_count = chunk_count;
    size = size;
    hash = hash;
    premium = premium;
    pack_type = pack_type;
  })
