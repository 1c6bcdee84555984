-- ===== src/Packet/Containers.antt =====
-- The packets about containers (minecraft/protocol/packet): their structs and their
-- Marshal functions, which serve both directions.
pub mod RoundTrip
use gophertunnel.Prelude.{Bool, true, false, List, [], ℕ}
use gophertunnel.Io.{
  M, ◌>>=◌, pure, Io, Optional, Vec3, Vec2, BlockPos, ChunkPos, SubChunkPos, Rgba, func_slice,
  func_slice_uint32_length, optional_func, replicate,
}

-- packet/container_open.go
pub record ContainerOpen : Type 0 where
  pub window_id : ℕ
  pub container_type : ℕ
  pub container_position : BlockPos
  pub container_entity_unique_id : ℕ

abbrev pub new_container_open : ContainerOpen
new_container_open = record {
  window_id = 0;
  container_type = 0;
  container_position = (record { x = 0; y = 0; z = 0 });
  container_entity_unique_id = 0;
}

unfoldable pub marshal_container_open : Io → ContainerOpen → M ContainerOpen
marshal_container_open io pk = do
  window_id ← io.uint8 pk.window_id
  container_type ← io.uint8 pk.container_type
  container_position ← io.block_pos pk.container_position
  container_entity_unique_id ← io.actor_unique_id pk.container_entity_unique_id
  pure (record {
    window_id = window_id;
    container_type = container_type;
    container_position = container_position;
    container_entity_unique_id = container_entity_unique_id;
  })

-- packet/container_close.go
pub record ContainerClose : Type 0 where
  pub window_id : ℕ
  pub container_type : ℕ
  pub server_side : Bool

abbrev pub new_container_close : ContainerClose
new_container_close = record { window_id = 0; container_type = 0; server_side = false }

unfoldable pub marshal_container_close : Io → ContainerClose → M ContainerClose
marshal_container_close io pk = do
  window_id ← io.uint8 pk.window_id
  container_type ← io.uint8 pk.container_type
  server_side ← io.bool pk.server_side
  pure
      (record { window_id = window_id; container_type = container_type; server_side = server_side })

-- packet/container_set_data.go
pub record ContainerSetData : Type 0 where
  pub window_id : ℕ
  pub key : ℕ
  pub value : ℕ

abbrev pub new_container_set_data : ContainerSetData
new_container_set_data = record { window_id = 0; key = 0; value = 0 }

unfoldable pub marshal_container_set_data : Io → ContainerSetData → M ContainerSetData
marshal_container_set_data io pk = do
  window_id ← io.uint8 pk.window_id
  key ← io.varint32 pk.key
  value ← io.varint32 pk.value
  pure (record { window_id = window_id; key = key; value = value })

-- packet/player_hot_bar.go
pub record PlayerHotBar : Type 0 where
  pub selected_hot_bar_slot : ℕ
  pub window_id : ℕ
  pub select_hot_bar_slot : Bool

abbrev pub new_player_hot_bar : PlayerHotBar
new_player_hot_bar = record {
  selected_hot_bar_slot = 0;
  window_id = 0;
  select_hot_bar_slot = false;
}

unfoldable pub marshal_player_hot_bar : Io → PlayerHotBar → M PlayerHotBar
marshal_player_hot_bar io pk = do
  selected_hot_bar_slot ← io.varuint32 pk.selected_hot_bar_slot
  window_id ← io.uint8 pk.window_id
  select_hot_bar_slot ← io.bool pk.select_hot_bar_slot
  pure (record {
    selected_hot_bar_slot = selected_hot_bar_slot;
    window_id = window_id;
    select_hot_bar_slot = select_hot_bar_slot;
  })

-- packet/completed_using_item.go
pub record CompletedUsingItem : Type 0 where
  pub used_item_id : ℕ
  pub use_method : ℕ

abbrev pub new_completed_using_item : CompletedUsingItem
new_completed_using_item = record { used_item_id = 0; use_method = 0 }

unfoldable pub marshal_completed_using_item : Io → CompletedUsingItem → M CompletedUsingItem
marshal_completed_using_item io pk = do
  used_item_id ← io.int16 pk.used_item_id
  use_method ← io.int32 pk.use_method
  pure (record { used_item_id = used_item_id; use_method = use_method })

-- packet/set_player_inventory_options.go
pub record SetPlayerInventoryOptions : Type 0 where
  pub left_inventory_tab : ℕ
  pub right_inventory_tab : ℕ
  pub filtering : Bool
  pub inventory_layout : ℕ
  pub crafting_layout : ℕ

abbrev pub new_set_player_inventory_options : SetPlayerInventoryOptions
new_set_player_inventory_options = record {
  left_inventory_tab = 0;
  right_inventory_tab = 0;
  filtering = false;
  inventory_layout = 0;
  crafting_layout = 0;
}

unfoldable pub marshal_set_player_inventory_options :
    Io → SetPlayerInventoryOptions → M SetPlayerInventoryOptions
marshal_set_player_inventory_options io pk = do
  left_inventory_tab ← io.varint32 pk.left_inventory_tab
  right_inventory_tab ← io.varint32 pk.right_inventory_tab
  filtering ← io.bool pk.filtering
  inventory_layout ← io.varint32 pk.inventory_layout
  crafting_layout ← io.varint32 pk.crafting_layout
  pure (record {
    left_inventory_tab = left_inventory_tab;
    right_inventory_tab = right_inventory_tab;
    filtering = filtering;
    inventory_layout = inventory_layout;
    crafting_layout = crafting_layout;
  })
