-- ===== src/Packet/World.antt =====
-- The packets about the world (minecraft/protocol/packet): their structs and their
-- Marshal functions, which serve both directions.
pub mod RoundTrip
use gophertunnel.Prelude.{Bool, true, false, List, [], ℕ}
use gophertunnel.Io.{
  M, ◌>>=◌, pure, Io, Optional, Vec3, Vec2, BlockPos, ChunkPos, SubChunkPos, Rgba, func_slice,
  func_slice_uint32_length, optional_func, replicate,
}

-- packet/set_time.go
pub record SetTime : Type 0 where
  pub time : ℕ

abbrev pub new_set_time : SetTime
new_set_time = record { time = 0 }

unfoldable pub marshal_set_time : Io → SetTime → M SetTime
marshal_set_time io pk = do time ← io.varint32 pk.time; pure (record { time = time })

-- packet/set_difficulty.go
pub record SetDifficulty : Type 0 where
  pub difficulty : ℕ

abbrev pub new_set_difficulty : SetDifficulty
new_set_difficulty = record { difficulty = 0 }

unfoldable pub marshal_set_difficulty : Io → SetDifficulty → M SetDifficulty
marshal_set_difficulty io pk = do
  difficulty ← io.varuint32 pk.difficulty
  pure (record { difficulty = difficulty })

-- packet/set_commands_enabled.go
pub record SetCommandsEnabled : Type 0 where
  pub enabled : Bool

abbrev pub new_set_commands_enabled : SetCommandsEnabled
new_set_commands_enabled = record { enabled = false }

unfoldable pub marshal_set_commands_enabled : Io → SetCommandsEnabled → M SetCommandsEnabled
marshal_set_commands_enabled io pk = do
  enabled ← io.bool pk.enabled
  pure (record { enabled = enabled })

-- packet/network_stack_latency.go
pub record NetworkStackLatency : Type 0 where
  pub timestamp : ℕ
  pub needs_response : Bool

abbrev pub new_network_stack_latency : NetworkStackLatency
new_network_stack_latency = record { timestamp = 0; needs_response = false }

unfoldable pub marshal_network_stack_latency : Io → NetworkStackLatency → M NetworkStackLatency
marshal_network_stack_latency io pk = do
  timestamp ← io.int64 pk.timestamp
  needs_response ← io.bool pk.needs_response
  pure (record { timestamp = timestamp; needs_response = needs_response })

-- packet/level_sound_event.go
pub record LevelSoundEvent : Type 0 where
  pub sound_type : List ℕ
  pub position : Vec3
  pub extra_data : ℕ
  pub entity_type : List ℕ
  pub baby_mob : Bool
  pub disable_relative_volume : Bool
  pub entity_unique_id : ℕ
  pub fire_at_position : Optional Vec3

abbrev pub new_level_sound_event : LevelSoundEvent
new_level_sound_event = record {
  sound_type = [];
  position = (record { x = 0; y = 0; z = 0 });
  extra_data = 0;
  entity_type = [];
  baby_mob = false;
  disable_relative_volume = false;
  entity_unique_id = 0;
  fire_at_position = (record { set = false; val = (record { x = 0; y = 0; z = 0 }) });
}

unfoldable pub marshal_level_sound_event : Io → LevelSoundEvent → M LevelSoundEvent
marshal_level_sound_event io pk = do
  sound_type ← io.string pk.sound_type
  position ← io.vec3 pk.position
  extra_data ← io.varint32 pk.extra_data
  entity_type ← io.string pk.entity_type
  baby_mob ← io.bool pk.baby_mob
  disable_relative_volume ← io.bool pk.disable_relative_volume
  entity_unique_id ← io.actor_unique_id_int64 pk.entity_unique_id
  fire_at_position ← optional_func io pk.fire_at_position io.vec3
  pure (record {
    sound_type = sound_type;
    position = position;
    extra_data = extra_data;
    entity_type = entity_type;
    baby_mob = baby_mob;
    disable_relative_volume = disable_relative_volume;
    entity_unique_id = entity_unique_id;
    fire_at_position = fire_at_position;
  })

-- packet/client_cache_blob_status.go
pub record ClientCacheBlobStatus : Type 0 where
  pub miss_hashes : List ℕ
  pub hit_hashes : List ℕ

abbrev pub new_client_cache_blob_status : ClientCacheBlobStatus
new_client_cache_blob_status = record { miss_hashes = []; hit_hashes = [] }

unfoldable pub marshal_client_cache_blob_status :
    Io → ClientCacheBlobStatus → M ClientCacheBlobStatus
marshal_client_cache_blob_status io pk = do
  miss_hashes ← func_slice io 0 pk.miss_hashes io.uint64
  hit_hashes ← func_slice io 0 pk.hit_hashes io.uint64
  pure (record { miss_hashes = miss_hashes; hit_hashes = hit_hashes })
