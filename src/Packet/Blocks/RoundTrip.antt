-- ===== src/Packet/Blocks/RoundTrip.antt =====
-- Blocks: a fresh packet is read back as it was written, field by field.
use gophertunnel.Prelude.{Bool}
use gophertunnel.Io.Sim.{Sim, step, done}
use gophertunnel.Io.Reader.{reader}
use gophertunnel.Io.Writer.{writer}
use gophertunnel.Io.Prims.{
  uint8-Sim, bool-Sim, varint32-Sim, varuint32-Sim, varuint64-Sim, block_pos-Sim,
}
use gophertunnel.Io.Values.{IsU32, IsU64, IsBlockPos}
use gophertunnel.Packet.Blocks.{
  UpdateBlock, new_update_block, marshal_update_block, UpdateBlockSynced, new_update_block_synced,
  marshal_update_block_synced, BlockEvent, new_block_event, marshal_block_event, BlockPickRequest,
  new_block_pick_request, marshal_block_pick_request,
}

-- UpdateBlock
pub record IsUpdateBlock (pk : UpdateBlock) : Type 0 where
  pub position : IsBlockPos pk.position
  pub new_block_runtime_id : IsU32 pk.new_block_runtime_id
  pub flags : IsU32 pk.flags
  pub layer : IsU32 pk.layer

pub marshal_update_block-Sim :
    (limits : Bool) (pk : UpdateBlock)
    → IsUpdateBlock pk
    → Sim 1
        (marshal_update_block writer pk)
        (marshal_update_block (reader limits) new_update_block)
        pk
unfolding marshal_update_block
marshal_update_block-Sim limits pk h = step _ _ (block_pos-Sim _ _ h.position) (
    step _ _ (varuint32-Sim _ _ h.new_block_runtime_id)
      (step _ _ (varuint32-Sim _ _ h.flags) (step _ _ (varuint32-Sim _ _ h.layer) done)))

-- UpdateBlockSynced
pub record IsUpdateBlockSynced (pk : UpdateBlockSynced) : Type 0 where
  pub position : IsBlockPos pk.position
  pub new_block_runtime_id : IsU32 pk.new_block_runtime_id
  pub flags : IsU32 pk.flags
  pub layer : IsU32 pk.layer
  pub entity_unique_id : IsU64 pk.entity_unique_id
  pub transition_type : IsU64 pk.transition_type

pub marshal_update_block_synced-Sim :
    (limits : Bool) (pk : UpdateBlockSynced)
    → IsUpdateBlockSynced pk
    → Sim 1
        (marshal_update_block_synced writer pk)
        (marshal_update_block_synced (reader limits) new_update_block_synced)
        pk
unfolding marshal_update_block_synced
marshal_update_block_synced-Sim limits pk h = step _ _ (block_pos-Sim _ _ h.position) (
    step _ _ (varuint32-Sim _ _ h.new_block_runtime_id) (
      step _ _ (varuint32-Sim _ _ h.flags) (
        step _ _ (varuint32-Sim _ _ h.layer) (
          step _ _ (varuint64-Sim _ _ h.entity_unique_id)
            (step _ _ (varuint64-Sim _ _ h.transition_type) done)))))

-- BlockEvent
pub record IsBlockEvent (pk : BlockEvent) : Type 0 where
  pub position : IsBlockPos pk.position
  pub event_type : IsU32 pk.event_type
  pub event_data : IsU32 pk.event_data

pub marshal_block_event-Sim :
    (limits : Bool) (pk : BlockEvent)
    → IsBlockEvent pk
    → Sim 1 (marshal_block_event writer pk) (marshal_block_event (reader limits) new_block_event) pk
unfolding marshal_block_event
marshal_block_event-Sim limits pk h =
    step _ _ (block_pos-Sim _ _ h.position)
      (step _ _ (varint32-Sim _ _ h.event_type) (step _ _ (varint32-Sim _ _ h.event_data) done))

-- BlockPickRequest
pub record IsBlockPickRequest (pk : BlockPickRequest) : Type 0 where
  pub position : IsBlockPos pk.position

pub marshal_block_pick_request-Sim :
    (limits : Bool) (pk : BlockPickRequest)
    → IsBlockPickRequest pk
    → Sim 1
        (marshal_block_pick_request writer pk)
        (marshal_block_pick_request (reader limits) new_block_pick_request)
        pk
unfolding marshal_block_pick_request
marshal_block_pick_request-Sim limits pk h =
    step _ _ (block_pos-Sim _ _ h.position)
      (step _ _ (bool-Sim _ _) (step _ _ (uint8-Sim _ _) done))
