-- ===== src/Packet/Prediction/RoundTrip.antt =====
-- Prediction: a fresh packet is read back as it was written, field by field.
use gophertunnel.Prelude.{Bool}
use gophertunnel.Io.Sim.{Sim, step, done}
use gophertunnel.Io.Reader.{reader}
use gophertunnel.Io.Writer.{writer}
use gophertunnel.Io.Prims.{
  uint8-Sim, bool-Sim, float32-Sim, varint32-Sim, varuint64-Sim, vec3-Sim, vec2-Sim,
}
use gophertunnel.Io.Values.{IsU32, IsU64, IsVec3, IsVec2, IsOptional, optional_func-Sim}
use gophertunnel.Packet.Prediction.{
  CorrectPlayerMovePrediction, new_correct_player_move_prediction,
  marshal_correct_player_move_prediction, MovementEffect, new_movement_effect,
  marshal_movement_effect,
}

-- CorrectPlayerMovePrediction
pub record IsCorrectPlayerMovePrediction (pk : CorrectPlayerMovePrediction) : Type 0 where
  pub position : IsVec3 pk.position
  pub delta : IsVec3 pk.delta
  pub rotation : IsVec2 pk.rotation
  pub vehicle_angular_velocity : IsOptional IsU32 0 pk.vehicle_angular_velocity
  pub tick : IsU64 pk.tick

pub marshal_correct_player_move_prediction-Sim :
    (limits : Bool) (pk : CorrectPlayerMovePrediction)
    → IsCorrectPlayerMovePrediction pk
    → Sim 1
        (marshal_correct_player_move_prediction writer pk)
        (marshal_correct_player_move_prediction (reader limits) new_correct_player_move_prediction)
        pk
unfolding marshal_correct_player_move_prediction
marshal_correct_player_move_prediction-Sim limits pk h = step _ _ (uint8-Sim _ _) (
    step _ _ (vec3-Sim _ _ h.position) (
      step _ _ (vec3-Sim _ _ h.delta) (
        step _ _ (vec2-Sim _ _ h.rotation) (
          step _ _
            (optional_func-Sim IsU32 0 _ _ (λ v h. float32-Sim v _ h) limits _ _
              h.vehicle_angular_velocity)
            (step _ _ (bool-Sim _ _) (step _ _ (varuint64-Sim _ _ h.tick) done))))))

-- MovementEffect
pub record IsMovementEffect (pk : MovementEffect) : Type 0 where
  pub entity_runtime_id : IsU64 pk.entity_runtime_id
  pub type : IsU32 pk.type
  pub duration : IsU32 pk.duration
  pub tick : IsU64 pk.tick

pub marshal_movement_effect-Sim :
    (limits : Bool) (pk : MovementEffect)
    → IsMovementEffect pk
    → Sim 1
        (marshal_movement_effect writer pk)
        (marshal_movement_effect (reader limits) new_movement_effect)
        pk
unfolding marshal_movement_effect
marshal_movement_effect-Sim limits pk h = step _ _ (varuint64-Sim _ _ h.entity_runtime_id) (
    step _ _ (varint32-Sim _ _ h.type)
      (step _ _ (varint32-Sim _ _ h.duration) (step _ _ (varuint64-Sim _ _ h.tick) done)))
