-- ===== src/Packet/Prediction.antt =====
-- The packets of predicted movement (minecraft/protocol/packet): their structs and their
-- Marshal functions, which serve both directions.
pub mod RoundTrip
use gophertunnel.Prelude.{Bool, true, false, List, [], ℕ}
use gophertunnel.Io.{
  M, ◌>>=◌, pure, Io, Optional, Vec3, Vec2, BlockPos, ChunkPos, SubChunkPos, Rgba, func_slice,
  func_slice_uint32_length, optional_func, replicate,
}

-- packet/correct_player_move_prediction.go
pub record CorrectPlayerMovePrediction : Type 0 where
  pub prediction_type : ℕ
  pub position : Vec3
  pub delta : Vec3
  pub rotation : Vec2
  pub vehicle_angular_velocity : Optional ℕ
  pub on_ground : Bool
  pub tick : ℕ

abbrev pub new_correct_player_move_prediction : CorrectPlayerMovePrediction
new_correct_player_move_prediction = record {
  prediction_type = 0;
  position = (record { x = 0; y = 0; z = 0 });
  delta = (record { x = 0; y = 0; z = 0 });
  rotation = (record { x = 0; y = 0 });
  vehicle_angular_velocity = (record { set = false; val = 0 });
  on_ground = false;
  tick = 0;
}

unfoldable pub marshal_correct_player_move_prediction :
    Io → CorrectPlayerMovePrediction → M CorrectPlayerMovePrediction
marshal_correct_player_move_prediction io pk = do
  prediction_type ← io.uint8 pk.prediction_type
  position ← io.vec3 pk.position
  delta ← io.vec3 pk.delta
  rotation ← io.vec2 pk.rotation
  vehicle_angular_velocity ← optional_func io pk.vehicle_angular_velocity io.float32
  on_ground ← io.bool pk.on_ground
  tick ← io.varuint64 pk.tick
  pure (record {
    prediction_type = prediction_type;
    position = position;
    delta = delta;
    rotation = rotation;
    vehicle_angular_velocity = vehicle_angular_velocity;
    on_ground = on_ground;
    tick = tick;
  })

-- packet/movement_effect.go
pub record MovementEffect : Type 0 where
  pub entity_runtime_id : ℕ
  pub type : ℕ
  pub duration : ℕ
  pub tick : ℕ

abbrev pub new_movement_effect : MovementEffect
new_movement_effect = record { entity_runtime_id = 0; type = 0; duration = 0; tick = 0 }

unfoldable pub marshal_movement_effect : Io → MovementEffect → M MovementEffect
marshal_movement_effect io pk = do
  entity_runtime_id ← io.actor_runtime_id pk.entity_runtime_id
  type ← io.varint32 pk.type
  duration ← io.varint32 pk.duration
  tick ← io.varuint64 pk.tick
  pure (record {
    entity_runtime_id = entity_runtime_id;
    type = type;
    duration = duration;
    tick = tick;
  })
