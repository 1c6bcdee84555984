-- ===== src/Packet/World/RoundTrip.antt =====
-- World: a fresh packet is read back as it was written, field by field.
use gophertunnel.Prelude.{Bool}
use gophertunnel.Io.Sim.{Sim, step, done}
use gophertunnel.Io.Reader.{reader}
use gophertunnel.Io.Writer.{writer}
use gophertunnel.Io.Prims.{
  bool-Sim, uint64-Sim, int64-Sim, varint32-Sim, varuint32-Sim, string-Sim, vec3-Sim,
}
use gophertunnel.Io.Values.{
  IsU32, IsU64, IsText, IsVec3, IsSlice, IsOptional, func_slice-Sim, optional_func-Sim,
}
use gophertunnel.Packet.World.{
  SetTime, new_set_time, marshal_set_time, SetDifficulty, new_set_difficulty,
  marshal_set_difficulty, SetCommandsEnabled, new_set_commands_enabled,
  marshal_set_commands_enabled, NetworkStackLatency, new_network_stack_latency,
  marshal_network_stack_latency, LevelSoundEvent, new_level_sound_event, marshal_level_sound_event,
  ClientCacheBlobStatus, new_client_cache_blob_status, marshal_client_cache_blob_status,
}

-- SetTime
pub record IsSetTime (pk : SetTime) : Type 0 where
  pub time : IsU32 pk.time

pub marshal_set_time-Sim :
    (limits : Bool) (pk : SetTime)
    → IsSetTime pk
    → Sim 1 (marshal_set_time writer pk) (marshal_set_time (reader limits) new_set_time) pk
unfolding marshal_set_time
marshal_set_time-Sim limits pk h = step _ _ (varint32-Sim _ _ h.time) done

-- SetDifficulty
pub record IsSetDifficulty (pk : SetDifficulty) : Type 0 where
  pub difficulty : IsU32 pk.difficulty

pub marshal_set_difficulty-Sim :
    (limits : Bool) (pk : SetDifficulty)
    → IsSetDifficulty pk
    → Sim 1
        (marshal_set_difficulty writer pk)
        (marshal_set_difficulty (reader limits) new_set_difficulty)
        pk
unfolding marshal_set_difficulty
marshal_set_difficulty-Sim limits pk h = step _ _ (varuint32-Sim _ _ h.difficulty) done

-- SetCommandsEnabled
pub marshal_set_commands_enabled-Sim :
    (limits : Bool) (pk : SetCommandsEnabled)
    → Sim 1
        (marshal_set_commands_enabled writer pk)
        (marshal_set_commands_enabled (reader limits) new_set_commands_enabled)
        pk
unfolding marshal_set_commands_enabled
marshal_set_commands_enabled-Sim limits pk = step _ _ (bool-Sim _ _) done

-- NetworkStackLatency
pub record IsNetworkStackLatency (pk : NetworkStackLatency) : Type 0 where
  pub timestamp : IsU64 pk.timestamp

pub marshal_network_stack_latency-Sim :
    (limits : Bool) (pk : NetworkStackLatency)
    → IsNetworkStackLatency pk
    → Sim 1
        (marshal_network_stack_latency writer pk)
        (marshal_network_stack_latency (reader limits) new_network_stack_latency)
        pk
unfolding marshal_network_stack_latency
marshal_network_stack_latency-Sim limits pk h =
    step _ _ (int64-Sim _ _ h.timestamp) (step _ _ (bool-Sim _ _) done)

-- LevelSoundEvent
pub record IsLevelSoundEvent (pk : LevelSoundEvent) : Type 0 where
  pub sound_type : IsText pk.sound_type
  pub position : IsVec3 pk.position
  pub extra_data : IsU32 pk.extra_data
  pub entity_type : IsText pk.entity_type
  pub entity_unique_id : IsU64 pk.entity_unique_id
  pub fire_at_position : IsOptional IsVec3 (record { x = 0; y = 0; z = 0 }) pk.fire_at_position

pub marshal_level_sound_event-Sim :
    (limits : Bool) (pk : LevelSoundEvent)
    → IsLevelSoundEvent pk
    → Sim 1
        (marshal_level_sound_event writer pk)
        (marshal_level_sound_event (reader limits) new_level_sound_event)
        pk
unfolding marshal_level_sound_event
marshal_level_sound_event-Sim limits pk h = step _ _ (string-Sim _ _ h.sound_type) (
    step _ _ (vec3-Sim _ _ h.position) (
      step _ _ (varint32-Sim _ _ h.extra_data) (
        step _ _ (string-Sim _ _ h.entity_type) (
          step _ _ (bool-Sim _ _) (
            step _ _ (bool-Sim _ _) (
              step _ _ (int64-Sim _ _ h.entity_unique_id) (
                step _ _
                  (optional_func-Sim IsVec3 (record { x = 0; y = 0; z = 0 }) _ _
                    (λ v h. vec3-Sim v _ h) limits _ _ h.fire_at_position)
                  done)))))))

-- ClientCacheBlobStatus
pub record IsClientCacheBlobStatus (pk : ClientCacheBlobStatus) : Type 0 where
  pub miss_hashes : IsSlice IsU64 pk.miss_hashes
  pub hit_hashes : IsSlice IsU64 pk.hit_hashes

pub marshal_client_cache_blob_status-Sim :
    (limits : Bool) (pk : ClientCacheBlobStatus)
    → IsClientCacheBlobStatus pk
    → Sim 1
        (marshal_client_cache_blob_status writer pk)
        (marshal_client_cache_blob_status (reader limits) new_client_cache_blob_status)
        pk
unfolding marshal_client_cache_blob_status
marshal_client_cache_blob_status-Sim limits pk h =
    step _ _ (func_slice-Sim IsU64 0 _ _ (λ v h. uint64-Sim v _ h) limits _ _ h.miss_hashes)
      (step _ _ (func_slice-Sim IsU64 0 _ _ (λ v h. uint64-Sim v _ h) limits _ _ h.hit_hashes) done)
