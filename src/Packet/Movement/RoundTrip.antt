-- ===== src/Packet/Movement/RoundTrip.antt =====
-- Movement: a fresh packet is read back as it was written, field by field.
use gophertunnel.Prelude.{Bool}
use gophertunnel.Io.Sim.{Sim, step, done}
use gophertunnel.Io.Reader.{reader}
use gophertunnel.Io.Writer.{writer}
use gophertunnel.Io.Prims.{uint8-Sim, bool-Sim, int32-Sim, float32-Sim, varuint64-Sim, vec3-Sim}
use gophertunnel.Io.Values.{IsU32, IsU64, IsVec3, IsOptional, optional_func-Sim}
use gophertunnel.Packet.Movement.{
  TeleportData, new_teleport_data, marshal_teleport_data, MovePlayer, new_move_player,
  marshal_move_player, MotionPredictionHints, new_motion_prediction_hints,
  marshal_motion_prediction_hints, SetActorMotion, new_set_actor_motion, marshal_set_actor_motion,
}

-- TeleportData
pub record IsTeleportData (pk : TeleportData) : Type 0 where
  pub teleport_cause : IsU32 pk.teleport_cause
  pub teleport_source_entity_type : IsU32 pk.teleport_source_entity_type

pub marshal_teleport_data-Sim :
    (limits : Bool) (pk : TeleportData)
    → IsTeleportData pk
    → Sim 1
        (marshal_teleport_data writer pk)
        (marshal_teleport_data (reader limits) new_teleport_data)
        pk
unfolding marshal_teleport_data
marshal_teleport_data-Sim limits pk h =
    step _ _ (int32-Sim _ _ h.teleport_cause)
      (step _ _ (int32-Sim _ _ h.teleport_source_entity_type) done)

-- MovePlayer
pub record IsMovePlayer (pk : MovePlayer) : Type 0 where
  pub entity_runtime_id : IsU64 pk.entity_runtime_id
  pub position : IsVec3 pk.position
  pub pitch : IsU32 pk.pitch
  pub yaw : IsU32 pk.yaw
  pub head_yaw : IsU32 pk.head_yaw
  pub ridden_entity_runtime_id : IsU64 pk.ridden_entity_runtime_id
  pub teleport_data : IsOptional IsTeleportData new_teleport_data pk.teleport_data
  pub tick : IsU64 pk.tick

pub marshal_move_player-Sim :
    (limits : Bool) (pk : MovePlayer)
    → IsMovePlayer pk
    → Sim 1 (marshal_move_player writer pk) (marshal_move_player (reader limits) new_move_player) pk
unfolding marshal_move_player
marshal_move_player-Sim limits pk h = step _ _ (varuint64-Sim _ _ h.entity_runtime_id) (
    step _ _ (vec3-Sim _ _ h.position) (
      step _ _ (float32-Sim _ _ h.pitch) (
        step _ _ (float32-Sim _ _ h.yaw) (
          step _ _ (float32-Sim _ _ h.head_yaw) (
            step _ _ (uint8-Sim _ _) (
              step _ _ (bool-Sim _ _) (
                step _ _ (varuint64-Sim _ _ h.ridden_entity_runtime_id) (
                  step _ _
                    (optional_func-Sim IsTeleportData new_teleport_data _ _
                      (marshal_teleport_data-Sim limits) limits _ _ h.teleport_data)
                    (step _ _ (varuint64-Sim _ _ h.tick) done)))))))))

-- MotionPredictionHints
pub record IsMotionPredictionHints (pk : MotionPredictionHints) : Type 0 where
  pub entity_runtime_id : IsU64 pk.entity_runtime_id
  pub velocity : IsVec3 pk.velocity

pub marshal_motion_prediction_hints-Sim :
    (limits : Bool) (pk : MotionPredictionHints)
    → IsMotionPredictionHints pk
    → Sim 1
        (marshal_motion_prediction_hints writer pk)
        (marshal_motion_prediction_hints (reader limits) new_motion_prediction_hints)
        pk
unfolding marshal_motion_prediction_hints
marshal_motion_prediction_hints-Sim limits pk h =
    step _ _ (varuint64-Sim _ _ h.entity_runtime_id)
      (step _ _ (vec3-Sim _ _ h.velocity) (step _ _ (bool-Sim _ _) done))

-- SetActorMotion
pub record IsSetActorMotion (pk : SetActorMotion) : Type 0 where
  pub entity_runtime_id : IsU64 pk.entity_runtime_id
  pub velocity : IsVec3 pk.velocity
  pub tick : IsU64 pk.tick

pub marshal_set_actor_motion-Sim :
    (limits : Bool) (pk : SetActorMotion)
    → IsSetActorMotion pk
    → Sim 1
        (marshal_set_actor_motion writer pk)
        (marshal_set_actor_motion (reader limits) new_set_actor_motion)
        pk
unfolding marshal_set_actor_motion
marshal_set_actor_motion-Sim limits pk h =
    step _ _ (varuint64-Sim _ _ h.entity_runtime_id)
      (step _ _ (vec3-Sim _ _ h.velocity) (step _ _ (varuint64-Sim _ _ h.tick) done))
