-- ===== src/Packet/Transfers.antt =====
-- The packets that move a player to another server (minecraft/protocol/packet): their structs and their
-- Marshal functions, which serve both directions.
pub mod RoundTrip
use gophertunnel.Prelude.{Bool, true, false, List, [], ℕ}
use gophertunnel.Io.{
  M, ◌>>=◌, pure, Io, Optional, Vec3, Vec2, BlockPos, ChunkPos, SubChunkPos, Rgba, func_slice,
  func_slice_uint32_length, optional_func, replicate,
}

-- server_join_information.go
pub record GatheringJoinInfo : Type 0 where
  pub experience_id : List ℕ
  pub experience_name : List ℕ
  pub experience_world_id : Optional (List ℕ)
  pub experience_world_name : Optional (List ℕ)
  pub creator_id : List ℕ
  pub target_id : Optional (List ℕ)
  pub scenario_id : Optional (List ℕ)
  pub server_id : Optional (List ℕ)

abbrev pub new_gathering_join_info : GatheringJoinInfo
new_gathering_join_info = record {
  experience_id = (replicate 16 0);
  experience_name = [];
  experience_world_id = (record { set = false; val = (replicate 16 0) });
  experience_world_name = (record { set = false; val = [] });
  creator_id = [];
  target_id = (record { set = false; val = (replicate 16 0) });
  scenario_id = (record { set = false; val = [] });
  server_id = (record { set = false; val = [] });
}

unfoldable pub marshal_gathering_join_info : Io → GatheringJoinInfo → M GatheringJoinInfo
marshal_gathering_join_info io pk = do
  experience_id ← io.uuid pk.experience_id
  experience_name ← io.string pk.experience_name
  experience_world_id ← optional_func io pk.experience_world_id io.uuid
  experience_world_name ← optional_func io pk.experience_world_name io.string
  creator_id ← io.string pk.creator_id
  target_id ← optional_func io pk.target_id io.uuid
  scenario_id ← optional_func io pk.scenario_id io.string
  server_id ← optional_func io pk.server_id io.string
  pure (record {
    experience_id = experience_id;
    experience_name = experience_name;
    experience_world_id = experience_world_id;
    experience_world_name = experience_world_name;
    creator_id = creator_id;
    target_id = target_id;
    scenario_id = scenario_id;
    server_id = server_id;
  })

-- packet/transfer.go
pub record Transfer : Type 0 where
  pub address : List ℕ
  pub port : ℕ
  pub reload_world : Bool
  pub gathering_join_info : Optional GatheringJoinInfo

abbrev pub new_transfer : Transfer
new_transfer = record {
  address = [];
  port = 0;
  reload_world = false;
  gathering_join_info = (record { set = false; val = new_gathering_join_info });
}

unfoldable pub marshal_transfer : Io → Transfer → M Transfer
marshal_transfer io pk = do
  address ← io.string pk.address
  port ← io.uint16 pk.port
  reload_world ← io.bool pk.reload_world
  gathering_join_info ← optional_func io pk.gathering_join_info (marshal_gathering_join_info io)
  pure (record {
    address = address;
    port = port;
    reload_world = reload_world;
    gathering_join_info = gathering_join_info;
  })
