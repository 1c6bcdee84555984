-- ===== src/Packet/Actors/RoundTrip.antt =====
-- Actors: a fresh packet is read back as it was written, field by field.
use gophertunnel.Prelude.{Bool}
use gophertunnel.Io.Sim.{Sim, step, done}
use gophertunnel.Io.Reader.{reader}
use gophertunnel.Io.Writer.{writer}
use gophertunnel.Io.Prims.{uint8-Sim, bool-Sim, varint32-Sim, varint64-Sim, varuint64-Sim, vec3-Sim}
use gophertunnel.Io.Values.{IsU32, IsU64, IsVec3, IsOptional, optional_func-Sim}
use gophertunnel.Packet.Actors.{
  TakeItemActor, new_take_item_actor, marshal_take_item_actor, RemoveActor, new_remove_actor,
  marshal_remove_actor, ActorEvent, new_actor_event, marshal_actor_event, MobEffect, new_mob_effect,
  marshal_mob_effect,
}

-- TakeItemActor
pub record IsTakeItemActor (pk : TakeItemActor) : Type 0 where
  pub item_entity_runtime_id : IsU64 pk.item_entity_runtime_id
  pub taker_entity_runtime_id : IsU64 pk.taker_entity_runtime_id

pub marshal_take_item_actor-Sim :
    (limits : Bool) (pk : TakeItemActor)
    → IsTakeItemActor pk
    → Sim 1
        (marshal_take_item_actor writer pk)
        (marshal_take_item_actor (reader limits) new_take_item_actor)
        pk
unfolding marshal_take_item_actor
marshal_take_item_actor-Sim limits pk h =
    step _ _ (varuint64-Sim _ _ h.item_entity_runtime_id)
      (step _ _ (varuint64-Sim _ _ h.taker_entity_runtime_id) done)

-- RemoveActor
pub record IsRemoveActor (pk : RemoveActor) : Type 0 where
  pub entity_unique_id : IsU64 pk.entity_unique_id

pub marshal_remove_actor-Sim :
    (limits : Bool) (pk : RemoveActor)
    → IsRemoveActor pk
    → Sim 1
        (marshal_remove_actor writer pk)
        (marshal_remove_actor (reader limits) new_remove_actor)
        pk
unfolding marshal_remove_actor
marshal_remove_actor-Sim limits pk h = step _ _ (varint64-Sim _ _ h.entity_unique_id) done

-- ActorEvent
pub record IsActorEvent (pk : ActorEvent) : Type 0 where
  pub entity_runtime_id : IsU64 pk.entity_runtime_id
  pub event_data : IsU32 pk.event_data
  pub fire_at_position : IsOptional IsVec3 (record { x = 0; y = 0; z = 0 }) pk.fire_at_position

pub marshal_actor_event-Sim :
    (limits : Bool) (pk : ActorEvent)
    → IsActorEvent pk
    → Sim 1 (marshal_actor_event writer pk) (marshal_actor_event (reader limits) new_actor_event) pk
unfolding marshal_actor_event
marshal_actor_event-Sim limits pk h = step _ _ (varuint64-Sim _ _ h.entity_runtime_id) (
    step _ _ (uint8-Sim _ _) (
      step _ _ (varint32-Sim _ _ h.event_data) (
        step _ _
          (optional_func-Sim IsVec3 (record { x = 0; y = 0; z = 0 }) _ _ (λ v h. vec3-Sim v _ h)
            limits _ _ h.fire_at_position)
          done)))

-- MobEffect
pub record IsMobEffect (pk : MobEffect) : Type 0 where
  pub entity_runtime_id : IsU64 pk.entity_runtime_id
  pub effect_type : IsU32 pk.effect_type
  pub amplifier : IsU32 pk.amplifier
  pub duration : IsU32 pk.duration
  pub tick : IsU64 pk.tick

pub marshal_mob_effect-Sim :
    (limits : Bool) (pk : MobEffect)
    → IsMobEffect pk
    → Sim 1 (marshal_mob_effect writer pk) (marshal_mob_effect (reader limits) new_mob_effect) pk
unfolding marshal_mob_effect
marshal_mob_effect-Sim limits pk h = step _ _ (varuint64-Sim _ _ h.entity_runtime_id) (
    step _ _ (uint8-Sim _ _) (
      step _ _ (varint32-Sim _ _ h.effect_type) (
        step _ _ (varint32-Sim _ _ h.amplifier) (
          step _ _ (bool-Sim _ _) (
            step _ _ (varint32-Sim _ _ h.duration)
              (step _ _ (varuint64-Sim _ _ h.tick) (step _ _ (bool-Sim _ _) done)))))))
