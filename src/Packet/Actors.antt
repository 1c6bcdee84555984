-- ===== src/Packet/Actors.antt =====
-- The packets about single entities (minecraft/protocol/packet): their structs and their
-- Marshal functions, which serve both directions.
pub mod RoundTrip
use gophertunnel.Prelude.{Bool, true, false, List, [], ℕ}
use gophertunnel.Io.{
  M, ◌>>=◌, pure, Io, Optional, Vec3, Vec2, BlockPos, ChunkPos, SubChunkPos, Rgba, func_slice,
  func_slice_uint32_length, optional_func, replicate,
}

-- packet/take_item_actor.go
pub record TakeItemActor : Type 0 where
  pub item_entity_runtime_id : ℕ
  pub taker_entity_runtime_id : ℕ

abbrev pub new_take_item_actor : TakeItemActor
new_take_item_actor = record { item_entity_runtime_id = 0; taker_entity_runtime_id = 0 }

unfoldable pub marshal_take_item_actor : Io → TakeItemActor → M TakeItemActor
marshal_take_item_actor io pk = do
  item_entity_runtime_id ← io.actor_runtime_id pk.item_entity_runtime_id
  taker_entity_runtime_id ← io.actor_runtime_id pk.taker_entity_runtime_id
  pure (record {
    item_entity_runtime_id = item_entity_runtime_id;
    taker_entity_runtime_id = taker_entity_runtime_id;
  })

-- packet/remove_actor.go
pub record RemoveActor : Type 0 where
  pub entity_unique_id : ℕ

abbrev pub new_remove_actor : RemoveActor
new_remove_actor = record { entity_unique_id = 0 }

unfoldable pub marshal_remove_actor : Io → RemoveActor → M RemoveActor
marshal_remove_actor io pk = do
  entity_unique_id ← io.actor_unique_id pk.entity_unique_id
  pure (record { entity_unique_id = entity_unique_id })

-- packet/actor_event.go
pub record ActorEvent : Type 0 where
  pub entity_runtime_id : ℕ
  pub event_type : ℕ
  pub event_data : ℕ
  pub fire_at_position : Optional Vec3

abbrev pub new_actor_event : ActorEvent
new_actor_event = record {
  entity_runtime_id = 0;
  event_type = 0;
  event_data = 0;
  fire_at_position = (record { set = false; val = (record { x = 0; y = 0; z = 0 }) });
}

unfoldable pub marshal_actor_event : Io → ActorEvent → M ActorEvent
marshal_actor_event io pk = do
  entity_runtime_id ← io.actor_runtime_id pk.entity_runtime_id
  event_type ← io.uint8 pk.event_type
  event_data ← io.varint32 pk.event_data
  fire_at_position ← optional_func io pk.fire_at_position io.vec3
  pure (record {
    entity_runtime_id = entity_runtime_id;
    event_type = event_type;
    event_data = event_data;
    fire_at_position = fire_at_position;
  })

-- packet/mob_effect.go
pub record MobEffect : Type 0 where
  pub entity_runtime_id : ℕ
  pub operation : ℕ
  pub effect_type : ℕ
  pub amplifier : ℕ
  pub particles : Bool
  pub duration : ℕ
  pub tick : ℕ
  pub ambient : Bool

abbrev pub new_mob_effect : MobEffect
new_mob_effect = record {
  entity_runtime_id = 0;
  operation = 0;
  effect_type = 0;
  amplifier = 0;
  particles = false;
  duration = 0;
  tick = 0;
  ambient = false;
}

unfoldable pub marshal_mob_effect : Io → MobEffect → M MobEffect
marshal_mob_effect io pk = do
  entity_runtime_id ← io.actor_runtime_id pk.entity_runtime_id
  operation ← io.uint8 pk.operation
  effect_type ← io.varint32 pk.effect_type
  amplifier ← io.varint32 pk.amplifier
  particles ← io.bool pk.particles
  duration ← io.varint32 pk.duration
  tick ← io.varuint64 pk.tick
  ambient ← io.bool pk.ambient
  pure (record {
    entity_runtime_id = entity_runtime_id;
    operation = operation;
    effect_type = effect_type;
    amplifier = amplifier;
    particles = particles;
    duration = duration;
    tick = tick;
    ambient = ambient;
  })
