-- ===== src/Packet/Interaction.antt =====
-- The packets of entities that act on one another (minecraft/protocol/packet): their structs and their
-- Marshal functions, which serve both directions.
pub mod RoundTrip
use gophertunnel.Prelude.{Bool, true, false, List, [], ℕ}
use gophertunnel.Io.{
  M, ◌>>=◌, pure, Io, Optional, Vec3, Vec2, BlockPos, ChunkPos, SubChunkPos, Rgba, func_slice,
  func_slice_uint32_length, optional_func, replicate,
}

-- entity_link.go
pub record EntityLink : Type 0 where
  pub ridden_entity_unique_id : ℕ
  pub rider_entity_unique_id : ℕ
  pub type : ℕ
  pub immediate : Bool
  pub rider_initiated : Bool
  pub vehicle_angular_velocity : ℕ

abbrev pub new_entity_link : EntityLink
new_entity_link = record {
  ridden_entity_unique_id = 0;
  rider_entity_unique_id = 0;
  type = 0;
  immediate = false;
  rider_initiated = false;
  vehicle_angular_velocity = 0;
}

unfoldable pub marshal_entity_link : Io → EntityLink → M EntityLink
marshal_entity_link io pk = do
  ridden_entity_unique_id ← io.actor_unique_id pk.ridden_entity_unique_id
  rider_entity_unique_id ← io.actor_unique_id pk.rider_entity_unique_id
  type ← io.uint8 pk.type
  immediate ← io.bool pk.immediate
  rider_initiated ← io.bool pk.rider_initiated
  vehicle_angular_velocity ← io.float32 pk.vehicle_angular_velocity
  pure (record {
    ridden_entity_unique_id = ridden_entity_unique_id;
    rider_entity_unique_id = rider_entity_unique_id;
    type = type;
    immediate = immediate;
    rider_initiated = rider_initiated;
    vehicle_angular_velocity = vehicle_angular_velocity;
  })

-- packet/set_actor_link.go
pub record SetActorLink : Type 0 where
  pub entity_link : EntityLink

abbrev pub new_set_actor_link : SetActorLink
new_set_actor_link = record { entity_link = new_entity_link }

unfoldable pub marshal_set_actor_link : Io → SetActorLink → M SetActorLink
marshal_set_actor_link io pk = do
  entity_link ← marshal_entity_link io pk.entity_link
  pure (record { entity_link = entity_link })

-- packet/interact.go
pub record Interact : Type 0 where
  pub action_type : ℕ
  pub target_entity_runtime_id : ℕ
  pub position : Optional Vec3

abbrev pub new_interact : Interact
new_interact = record {
  action_type = 0;
  target_entity_runtime_id = 0;
  position = (record { set = false; val = (record { x = 0; y = 0; z = 0 }) });
}

unfoldable pub marshal_interact : Io → Interact → M Interact
marshal_interact io pk = do
  action_type ← io.uint8 pk.action_type
  target_entity_runtime_id ← io.actor_runtime_id pk.target_entity_runtime_id
  position ← optional_func io pk.position io.vec3
  pure (record {
    action_type = action_type;
    target_entity_runtime_id = target_entity_runtime_id;
    position = position;
  })

-- packet/actor_pick_request.go
pub record ActorPickRequest : Type 0 where
  pub entity_unique_id : ℕ
  pub hot_bar_slot : ℕ
  pub with_data : Bool

abbrev pub new_actor_pick_request : ActorPickRequest
new_actor_pick_request = record { entity_unique_id = 0; hot_bar_slot = 0; with_data = false }

unfoldable pub marshal_actor_pick_request : Io → ActorPickRequest → M ActorPickRequest
marshal_actor_pick_request io pk = do
  entity_unique_id ← io.actor_unique_id_int64 pk.entity_unique_id
  hot_bar_slot ← io.uint8 pk.hot_bar_slot
  with_data ← io.bool pk.with_data
  pure (record {
    entity_unique_id = entity_unique_id;
    hot_bar_slot = hot_bar_slot;
    with_data = with_data;
  })

-- packet/hurt_armour.go
pub record HurtArmour : Type 0 where
  pub cause : ℕ
  pub damage : ℕ
  pub armour_slots : ℕ

abbrev pub new_hurt_armour : HurtArmour
new_hurt_armour = record { cause = 0; damage = 0; armour_slots = 0 }

unfoldable pub marshal_hurt_armour : Io → HurtArmour → M HurtArmour
marshal_hurt_armour io pk = do
  cause ← io.varint32 pk.cause
  damage ← io.varint32 pk.damage
  armour_slots ← io.varuint64 pk.armour_slots
  pure (record { cause = cause; damage = damage; armour_slots = armour_slots })

-- packet/animate_entity.go
pub record AnimateEntity : Type 0 where
  pub animation : List ℕ
  pub next_state : List ℕ
  pub stop_condition : List ℕ
  pub stop_condition_version : ℕ
  pub controller : List ℕ
  pub blend_out_time : ℕ
  pub entity_runtime_ids : List ℕ

abbrev pub new_animate_entity : AnimateEntity
new_animate_entity = record {
  animation = [];
  next_state = [];
  stop_condition = [];
  stop_condition_version = 0;
  controller = [];
  blend_out_time = 0;
  entity_runtime_ids = [];
}

unfoldable pub marshal_animate_entity : Io → AnimateEntity → M AnimateEntity
marshal_animate_entity io pk = do
  animation ← io.string pk.animation
  next_state ← io.string pk.next_state
  stop_condition ← io.string pk.stop_condition
  stop_condition_version ← io.int32 pk.stop_condition_version
  controller ← io.string pk.controller
  blend_out_time ← io.float32 pk.blend_out_time
  entity_runtime_ids ← func_slice io 0 pk.entity_runtime_ids io.actor_runtime_id
  pure (record {
    animation = animation;
    next_state = next_state;
    stop_condition = stop_condition;
    stop_condition_version = stop_condition_version;
    controller = controller;
    blend_out_time = blend_out_time;
    entity_runtime_ids = entity_runtime_ids;
  })
