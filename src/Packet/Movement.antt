-- ===== src/Packet/Movement.antt =====
-- The packets of movement (minecraft/protocol/packet): their structs and their
-- Marshal functions, which serve both directions.
pub mod RoundTrip
use gophertunnel.Prelude.{Bool, true, false, List, [], ℕ}
use gophertunnel.Io.{
  M, ◌>>=◌, pure, Io, Optional, Vec3, Vec2, BlockPos, ChunkPos, SubChunkPos, Rgba, func_slice,
  func_slice_uint32_length, optional_func, replicate,
}

-- player.go
pub record TeleportData : Type 0 where
  pub teleport_cause : ℕ
  pub teleport_source_entity_type : ℕ

abbrev pub new_teleport_data : TeleportData
new_teleport_data = record { teleport_cause = 0; teleport_source_entity_type = 0 }

unfoldable pub marshal_teleport_data : Io → TeleportData → M TeleportData
marshal_teleport_data io pk = do
  teleport_cause ← io.int32 pk.teleport_cause
  teleport_source_entity_type ← io.int32 pk.teleport_source_entity_type
  pure (record {
    teleport_cause = teleport_cause;
    teleport_source_entity_type = teleport_source_entity_type;
  })

-- packet/move_player.go
pub record MovePlayer : Type 0 where
  pub entity_runtime_id : ℕ
  pub position : Vec3
  pub pitch : ℕ
  pub yaw : ℕ
  pub head_yaw : ℕ
  pub mode : ℕ
  pub on_ground : Bool
  pub ridden_entity_runtime_id : ℕ
  pub teleport_data : Optional TeleportData
  pub tick : ℕ

abbrev pub new_move_player : MovePlayer
new_move_player = record {
  entity_runtime_id = 0;
  position = (record { x = 0; y = 0; z = 0 });
  pitch = 0;
  yaw = 0;
  head_yaw = 0;
  mode = 0;
  on_ground = false;
  ridden_entity_runtime_id = 0;
  teleport_data = (record { set = false; val = new_teleport_data });
  tick = 0;
}

unfoldable pub marshal_move_player : Io → MovePlayer → M MovePlayer
marshal_move_player io pk = do
  entity_runtime_id ← io.actor_runtime_id pk.entity_runtime_id
  position ← io.vec3 pk.position
  pitch ← io.float32 pk.pitch
  yaw ← io.float32 pk.yaw
  head_yaw ← io.float32 pk.head_yaw
  mode ← io.uint8 pk.mode
  on_ground ← io.bool pk.on_ground
  ridden_entity_runtime_id ← io.actor_runtime_id pk.ridden_entity_runtime_id
  teleport_data ← optional_func io pk.teleport_data (marshal_teleport_data io)
  tick ← io.varuint64 pk.tick
  pure (record {
    entity_runtime_id = entity_runtime_id;
    position = position;
    pitch = pitch;
    yaw = yaw;
    head_yaw = head_yaw;
    mode = mode;
    on_ground = on_ground;
    ridden_entity_runtime_id = ridden_entity_runtime_id;
    teleport_data = teleport_data;
    tick = tick;
  })

-- packet/motion_prediction_hints.go
pub record MotionPredictionHints : Type 0 where
  pub entity_runtime_id : ℕ
  pub velocity : Vec3
  pub on_ground : Bool

abbrev pub new_motion_prediction_hints : MotionPredictionHints
new_motion_prediction_hints = record {
  entity_runtime_id = 0;
  velocity = (record { x = 0; y = 0; z = 0 });
  on_ground = false;
}

unfoldable pub marshal_motion_prediction_hints :
    Io → MotionPredictionHints → M MotionPredictionHints
marshal_motion_prediction_hints io pk = do
  entity_runtime_id ← io.actor_runtime_id pk.entity_runtime_id
  velocity ← io.vec3 pk.velocity
  on_ground ← io.bool pk.on_ground
  pure
      (record { entity_runtime_id = entity_runtime_id; velocity = velocity; on_ground = on_ground })

-- packet/set_actor_motion.go
pub record SetActorMotion : Type 0 where
  pub entity_runtime_id : ℕ
  pub velocity : Vec3
  pub tick : ℕ

abbrev pub new_set_actor_motion : SetActorMotion
new_set_actor_motion = record {
  entity_runtime_id = 0;
  velocity = (record { x = 0; y = 0; z = 0 });
  tick = 0;
}

unfoldable pub marshal_set_actor_motion : Io → SetActorMotion → M SetActorMotion
marshal_set_actor_motion io pk = do
  entity_runtime_id ← io.actor_runtime_id pk.entity_runtime_id
  velocity ← io.vec3 pk.velocity
  tick ← io.varuint64 pk.tick
  pure (record { entity_runtime_id = entity_runtime_id; velocity = velocity; tick = tick })
