-- ===== src/Packet/Containers/RoundTrip.antt =====
-- Containers: a fresh packet is read back as it was written, field by field.
use gophertunnel.Prelude.{Bool}
use gophertunnel.Io.Sim.{Sim, step, done}
use gophertunnel.Io.Reader.{reader}
use gophertunnel.Io.Writer.{writer}
use gophertunnel.Io.Prims.{
  uint8-Sim, bool-Sim, int16-Sim, int32-Sim, varint32-Sim, varuint32-Sim, varint64-Sim,
  block_pos-Sim,
}
use gophertunnel.Io.Values.{IsU16, IsU32, IsU64, IsBlockPos}
use gophertunnel.Packet.Containers.{
  ContainerOpen, new_container_open, marshal_container_open, ContainerClose, new_container_close,
  marshal_container_close, ContainerSetData, new_container_set_data, marshal_container_set_data,
  PlayerHotBar, new_player_hot_bar, marshal_player_hot_bar, CompletedUsingItem,
  new_completed_using_item, marshal_completed_using_item, SetPlayerInventoryOptions,
  new_set_player_inventory_options, marshal_set_player_inventory_options,
}

-- ContainerOpen
pub record IsContainerOpen (pk : ContainerOpen) : Type 0 where
  pub container_position : IsBlockPos pk.container_position
  pub container_entity_unique_id : IsU64 pk.container_entity_unique_id

pub marshal_container_open-Sim :
    (limits : Bool) (pk : ContainerOpen)
    → IsContainerOpen pk
    → Sim 1
        (marshal_container_open writer pk)
        (marshal_container_open (reader limits) new_container_open)
        pk
unfolding marshal_container_open
marshal_container_open-Sim limits pk h = step _ _ (uint8-Sim _ _) (
    step _ _ (uint8-Sim _ _) (
      step _ _ (block_pos-Sim _ _ h.container_position)
        (step _ _ (varint64-Sim _ _ h.container_entity_unique_id) done)))

-- ContainerClose
pub marshal_container_close-Sim :
    (limits : Bool) (pk : ContainerClose)
    → Sim 1
        (marshal_container_close writer pk)
        (marshal_container_close (reader limits) new_container_close)
        pk
unfolding marshal_container_close
marshal_container_close-Sim limits pk =
    step _ _ (uint8-Sim _ _) (step _ _ (uint8-Sim _ _) (step _ _ (bool-Sim _ _) done))

-- ContainerSetData
pub record IsContainerSetData (pk : ContainerSetData) : Type 0 where
  pub key : IsU32 pk.key
  pub value : IsU32 pk.value

pub marshal_container_set_data-Sim :
    (limits : Bool) (pk : ContainerSetData)
    → IsContainerSetData pk
    → Sim 1
        (marshal_container_set_data writer pk)
        (marshal_container_set_data (reader limits) new_container_set_data)
        pk
unfolding marshal_container_set_data
marshal_container_set_data-Sim limits pk h =
    step _ _ (uint8-Sim _ _)
      (step _ _ (varint32-Sim _ _ h.key) (step _ _ (varint32-Sim _ _ h.value) done))

-- PlayerHotBar
pub record IsPlayerHotBar (pk : PlayerHotBar) : Type 0 where
  pub selected_hot_bar_slot : IsU32 pk.selected_hot_bar_slot

pub marshal_player_hot_bar-Sim :
    (limits : Bool) (pk : PlayerHotBar)
    → IsPlayerHotBar pk
    → Sim 1
        (marshal_player_hot_bar writer pk)
        (marshal_player_hot_bar (reader limits) new_player_hot_bar)
        pk
unfolding marshal_player_hot_bar
marshal_player_hot_bar-Sim limits pk h =
    step _ _ (varuint32-Sim _ _ h.selected_hot_bar_slot)
      (step _ _ (uint8-Sim _ _) (step _ _ (bool-Sim _ _) done))

-- CompletedUsingItem
pub record IsCompletedUsingItem (pk : CompletedUsingItem) : Type 0 where
  pub used_item_id : IsU16 pk.used_item_id
  pub use_method : IsU32 pk.use_method

pub marshal_completed_using_item-Sim :
    (limits : Bool) (pk : CompletedUsingItem)
    → IsCompletedUsingItem pk
    → Sim 1
        (marshal_completed_using_item writer pk)
        (marshal_completed_using_item (reader limits) new_completed_using_item)
        pk
unfolding marshal_completed_using_item
marshal_completed_using_item-Sim limits pk h =
    step _ _ (int16-Sim _ _ h.used_item_id) (step _ _ (int32-Sim _ _ h.use_method) done)

-- SetPlayerInventoryOptions
pub record IsSetPlayerInventoryOptions (pk : SetPlayerInventoryOptions) : Type 0 where
  pub left_inventory_tab : IsU32 pk.left_inventory_tab
  pub right_inventory_tab : IsU32 pk.right_inventory_tab
  pub inventory_layout : IsU32 pk.inventory_layout
  pub crafting_layout : IsU32 pk.crafting_layout

pub marshal_set_player_inventory_options-Sim :
    (limits : Bool) (pk : SetPlayerInventoryOptions)
    → IsSetPlayerInventoryOptions pk
    → Sim 1
        (marshal_set_player_inventory_options writer pk)
        (marshal_set_player_inventory_options (reader limits) new_set_player_inventory_options)
        pk
unfolding marshal_set_player_inventory_options
marshal_set_player_inventory_options-Sim limits pk h =
    step _ _ (varint32-Sim _ _ h.left_inventory_tab) (
      step _ _ (varint32-Sim _ _ h.right_inventory_tab) (
        step _ _ (bool-Sim _ _) (
          step _ _ (varint32-Sim _ _ h.inventory_layout)
            (step _ _ (varint32-Sim _ _ h.crafting_layout) done))))
