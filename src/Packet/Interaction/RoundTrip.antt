-- ===== src/Packet/Interaction/RoundTrip.antt =====
-- Interaction: a fresh packet is read back as it was written, field by field.
use gophertunnel.Prelude.{Bool}
use gophertunnel.Io.Sim.{Sim, step, done}
use gophertunnel.Io.Reader.{reader}
use gophertunnel.Io.Writer.{writer}
use gophertunnel.Io.Prims.{
  uint8-Sim, bool-Sim, int32-Sim, int64-Sim, float32-Sim, varint32-Sim, varint64-Sim, varuint64-Sim,
  string-Sim, vec3-Sim,
}
use gophertunnel.Io.Values.{
  IsU32, IsU64, IsText, IsVec3, IsSlice, IsOptional, func_slice-Sim, optional_func-Sim,
}
use gophertunnel.Packet.Interaction.{
  EntityLink, new_entity_link, marshal_entity_link, SetActorLink, new_set_actor_link,
  marshal_set_actor_link, Interact, new_interact, marshal_interact, ActorPickRequest,
  new_actor_pick_request, marshal_actor_pick_request, HurtArmour, new_hurt_armour,
  marshal_hurt_armour, AnimateEntity, new_animate_entity, marshal_animate_entity,
}

-- EntityLink
pub record IsEntityLink (pk : EntityLink) : Type 0 where
  pub ridden_entity_unique_id : IsU64 pk.ridden_entity_unique_id
  pub rider_entity_unique_id : IsU64 pk.rider_entity_unique_id
  pub vehicle_angular_velocity : IsU32 pk.vehicle_angular_velocity

pub marshal_entity_link-Sim :
    (limits : Bool) (pk : EntityLink)
    → IsEntityLink pk
    → Sim 1 (marshal_entity_link writer pk) (marshal_entity_link (reader limits) new_entity_link) pk
unfolding marshal_entity_link
marshal_entity_link-Sim limits pk h = step _ _ (varint64-Sim _ _ h.ridden_entity_unique_id) (
    step _ _ (varint64-Sim _ _ h.rider_entity_unique_id) (
      step _ _ (uint8-Sim _ _) (
        step _ _ (bool-Sim _ _)
          (step _ _ (bool-Sim _ _) (step _ _ (float32-Sim _ _ h.vehicle_angular_velocity) done)))))

-- SetActorLink
pub record IsSetActorLink (pk : SetActorLink) : Type 0 where
  pub entity_link : IsEntityLink pk.entity_link

pub marshal_set_actor_link-Sim :
    (limits : Bool) (pk : SetActorLink)
    → IsSetActorLink pk
    → Sim 1
        (marshal_set_actor_link writer pk)
        (marshal_set_actor_link (reader limits) new_set_actor_link)
        pk
unfolding marshal_set_actor_link
marshal_set_actor_link-Sim limits pk h =
    step _ _ (marshal_entity_link-Sim limits _ h.entity_link) done

-- Interact
pub record IsInteract (pk : Interact) : Type 0 where
  pub target_entity_runtime_id : IsU64 pk.target_entity_runtime_id
  pub position : IsOptional IsVec3 (record { x = 0; y = 0; z = 0 }) pk.position

pub marshal_interact-Sim :
    (limits : Bool) (pk : Interact)
    → IsInteract pk
    → Sim 1 (marshal_interact writer pk) (marshal_interact (reader limits) new_interact) pk
unfolding marshal_interact
marshal_interact-Sim limits pk h = step _ _ (uint8-Sim _ _) (
    step _ _ (varuint64-Sim _ _ h.target_entity_runtime_id) (
      step _ _
        (optional_func-Sim IsVec3 (record { x = 0; y = 0; z = 0 }) _ _ (λ v h. vec3-Sim v _ h)
          limits _ _ h.position)
        done))

-- ActorPickRequest
pub record IsActorPickRequest (pk : ActorPickRequest) : Type 0 where
  pub entity_unique_id : IsU64 pk.entity_unique_id

pub marshal_actor_pick_request-Sim :
    (limits : Bool) (pk : ActorPickRequest)
    → IsActorPickRequest pk
    → Sim 1
        (marshal_actor_pick_request writer pk)
        (marshal_actor_pick_request (reader limits) new_actor_pick_request)
        pk
unfolding marshal_actor_pick_request
marshal_actor_pick_request-Sim limits pk h =
    step _ _ (int64-Sim _ _ h.entity_unique_id)
      (step _ _ (uint8-Sim _ _) (step _ _ (bool-Sim _ _) done))

-- HurtArmour
pub record IsHurtArmour (pk : HurtArmour) : Type 0 where
  pub cause : IsU32 pk.cause
  pub damage : IsU32 pk.damage
  pub armour_slots : IsU64 pk.armour_slots

pub marshal_hurt_armour-Sim :
    (limits : Bool) (pk : HurtArmour)
    → IsHurtArmour pk
    → Sim 1 (marshal_hurt_armour writer pk) (marshal_hurt_armour (reader limits) new_hurt_armour) pk
unfolding marshal_hurt_armour
marshal_hurt_armour-Sim limits pk h =
    step _ _ (varint32-Sim _ _ h.cause)
      (step _ _ (varint32-Sim _ _ h.damage) (step _ _ (varuint64-Sim _ _ h.armour_slots) done))

-- AnimateEntity
pub record IsAnimateEntity (pk : AnimateEntity) : Type 0 where
  pub animation : IsText pk.animation
  pub next_state : IsText pk.next_state
  pub stop_condition : IsText pk.stop_condition
  pub stop_condition_version : IsU32 pk.stop_condition_version
  pub controller : IsText pk.controller
  pub blend_out_time : IsU32 pk.blend_out_time
  pub entity_runtime_ids : IsSlice IsU64 pk.entity_runtime_ids

pub marshal_animate_entity-Sim :
    (limits : Bool) (pk : AnimateEntity)
    → IsAnimateEntity pk
    → Sim 1
        (marshal_animate_entity writer pk)
        (marshal_animate_entity (reader limits) new_animate_entity)
        pk
unfolding marshal_animate_entity
marshal_animate_entity-Sim limits pk h = step _ _ (string-Sim _ _ h.animation) (
    step _ _ (string-Sim _ _ h.next_state) (
      step _ _ (string-Sim _ _ h.stop_condition) (
        step _ _ (int32-Sim _ _ h.stop_condition_version) (
          step _ _ (string-Sim _ _ h.controller) (
            step _ _ (float32-Sim _ _ h.blend_out_time) (
              step _ _
                (func_slice-Sim IsU64 0 _ _ (λ v h. varuint64-Sim v _ h) limits _ _
                  h.entity_runtime_ids)
                done))))))
