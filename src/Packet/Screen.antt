-- ===== src/Packet/Screen.antt =====
-- The packets about titles and boss bars (minecraft/protocol/packet): their structs and their
-- Marshal functions, which serve both directions.
pub mod RoundTrip
use gophertunnel.Prelude.{Bool, true, false, List, [], ℕ}
use gophertunnel.Io.{
  M, ◌>>=◌, pure, Io, Optional, Vec3, Vec2, BlockPos, ChunkPos, SubChunkPos, Rgba, func_slice,
  func_slice_uint32_length, optional_func, replicate,
}

-- packet/set_title.go
pub record SetTitle : Type 0 where
  pub action_type : ℕ
  pub text : List ℕ
  pub fade_in_duration : ℕ
  pub remain_duration : ℕ
  pub fade_out_duration : ℕ
  pub xuid : List ℕ
  pub platform_online_id : List ℕ
  pub filtered_message : List ℕ

abbrev pub new_set_title : SetTitle
new_set_title = record {
  action_type = 0;
  text = [];
  fade_in_duration = 0;
  remain_duration = 0;
  fade_out_duration = 0;
  xuid = [];
  platform_online_id = [];
  filtered_message = [];
}

unfoldable pub marshal_set_title : Io → SetTitle → M SetTitle
marshal_set_title io pk = do
  action_type ← io.varint32 pk.action_type
  text ← io.string pk.text
  fade_in_duration ← io.varint32 pk.fade_in_duration
  remain_duration ← io.varint32 pk.remain_duration
  fade_out_duration ← io.varint32 pk.fade_out_duration
  xuid ← io.string pk.xuid
  platform_online_id ← io.string pk.platform_online_id
  filtered_message ← io.string pk.filtered_message
  pure (record {
    action_type = action_type;
    text = text;
    fade_in_duration = fade_in_duration;
    remain_duration = remain_duration;
    fade_out_duration = fade_out_duration;
    xuid = xuid;
    platform_online_id = platform_online_id;
    filtered_message = filtered_message;
  })

-- packet/boss_event.go
pub record BossEvent : Type 0 where
  pub boss_entity_unique_id : ℕ
  pub event_type : ℕ
  pub boss_bar_title : List ℕ
  pub filtered_boss_bar_title : List ℕ
  pub health_percentage : ℕ
  pub colour : ℕ
  pub overlay : ℕ

abbrev pub new_boss_event : BossEvent
new_boss_event = record {
  boss_entity_unique_id = 0;
  event_type = 0;
  boss_bar_title = [];
  filtered_boss_bar_title = [];
  health_percentage = 0;
  colour = 0;
  overlay = 0;
}

unfoldable pub marshal_boss_event : Io → BossEvent → M BossEvent
marshal_boss_event io pk = do
  boss_entity_unique_id ← io.actor_unique_id pk.boss_entity_unique_id
  event_type ← io.uint8 pk.event_type
  boss_bar_title ← io.string pk.boss_bar_title
  filtered_boss_bar_title ← io.string pk.filtered_boss_bar_title
  health_percentage ← io.float32 pk.health_percentage
  colour ← io.uint8 pk.colour
  overlay ← io.uint8 pk.overlay
  pure (record {
    boss_entity_unique_id = boss_entity_unique_id;
    event_type = event_type;
    boss_bar_title = boss_bar_title;
    filtered_boss_bar_title = filtered_boss_bar_title;
    health_percentage = health_percentage;
    colour = colour;
    overlay = overlay;
  })

-- packet/set_display_objective.go
pub record SetDisplayObjective : Type 0 where
  pub display_slot : List ℕ
  pub objective_name : List ℕ
  pub display_name : List ℕ
  pub criteria_name : List ℕ
  pub sort_order : ℕ

abbrev pub new_set_display_objective : SetDisplayObjective
new_set_display_objective = record {
  display_slot = [];
  objective_name = [];
  display_name = [];
  criteria_name = [];
  sort_order = 0;
}

unfoldable pub marshal_set_display_objective : Io → SetDisplayObjective → M SetDisplayObjective
marshal_set_display_objective io pk = do
  display_slot ← io.string pk.display_slot
  objective_name ← io.string pk.objective_name
  display_name ← io.string pk.display_name
  criteria_name ← io.string pk.criteria_name
  sort_order ← io.varint32 pk.sort_order
  pure (record {
    display_slot = display_slot;
    objective_name = objective_name;
    display_name = display_name;
    criteria_name = criteria_name;
    sort_order = sort_order;
  })

-- packet/set_hud.go
pub record SetHud : Type 0 where
  pub elements : List ℕ
  pub visibility : ℕ

abbrev pub new_set_hud : SetHud
new_set_hud = record { elements = []; visibility = 0 }

unfoldable pub marshal_set_hud : Io → SetHud → M SetHud
marshal_set_hud io pk = do
  elements ← func_slice io 0 pk.elements io.varint32
  visibility ← io.varint32 pk.visibility
  pure (record { elements = elements; visibility = visibility })
