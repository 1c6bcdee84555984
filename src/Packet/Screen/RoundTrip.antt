-- ===== src/Packet/Screen/RoundTrip.antt =====
-- Screen: a fresh packet is read back as it was written, field by field.
use gophertunnel.Prelude.{Bool}
use gophertunnel.Io.Sim.{Sim, step, done}
use gophertunnel.Io.Reader.{reader}
use gophertunnel.Io.Writer.{writer}
use gophertunnel.Io.Prims.{uint8-Sim, float32-Sim, varint32-Sim, varint64-Sim, string-Sim}
use gophertunnel.Io.Values.{IsU32, IsU64, IsText, IsSlice, func_slice-Sim}
use gophertunnel.Packet.Screen.{
  SetTitle, new_set_title, marshal_set_title, BossEvent, new_boss_event, marshal_boss_event,
  SetDisplayObjective, new_set_display_objective, marshal_set_display_objective, SetHud,
  new_set_hud, marshal_set_hud,
}

-- SetTitle
pub record IsSetTitle (pk : SetTitle) : Type 0 where
  pub action_type : IsU32 pk.action_type
  pub text : IsText pk.text
  pub fade_in_duration : IsU32 pk.fade_in_duration
  pub remain_duration : IsU32 pk.remain_duration
  pub fade_out_duration : IsU32 pk.fade_out_duration
  pub xuid : IsText pk.xuid
  pub platform_online_id : IsText pk.platform_online_id
  pub filtered_message : IsText pk.filtered_message

pub marshal_set_title-Sim :
    (limits : Bool) (pk : SetTitle)
    → IsSetTitle pk
    → Sim 1 (marshal_set_title writer pk) (marshal_set_title (reader limits) new_set_title) pk
unfolding marshal_set_title
marshal_set_title-Sim limits pk h = step _ _ (varint32-Sim _ _ h.action_type) (
    step _ _ (string-Sim _ _ h.text) (
      step _ _ (varint32-Sim _ _ h.fade_in_duration) (
        step _ _ (varint32-Sim _ _ h.remain_duration) (
          step _ _ (varint32-Sim _ _ h.fade_out_duration) (
            step _ _ (string-Sim _ _ h.xuid) (
              step _ _ (string-Sim _ _ h.platform_online_id)
                (step _ _ (string-Sim _ _ h.filtered_message) done)))))))

-- BossEvent
pub record IsBossEvent (pk : BossEvent) : Type 0 where
  pub boss_entity_unique_id : IsU64 pk.boss_entity_unique_id
  pub boss_bar_title : IsText pk.boss_bar_title
  pub filtered_boss_bar_title : IsText pk.filtered_boss_bar_title
  pub health_percentage : IsU32 pk.health_percentage

pub marshal_boss_event-Sim :
    (limits : Bool) (pk : BossEvent)
    → IsBossEvent pk
    → Sim 1 (marshal_boss_event writer pk) (marshal_boss_event (reader limits) new_boss_event) pk
unfolding marshal_boss_event
marshal_boss_event-Sim limits pk h = step _ _ (varint64-Sim _ _ h.boss_entity_unique_id) (
    step _ _ (uint8-Sim _ _) (
      step _ _ (string-Sim _ _ h.boss_bar_title) (
        step _ _ (string-Sim _ _ h.filtered_boss_bar_title) (
          step _ _ (float32-Sim _ _ h.health_percentage)
            (step _ _ (uint8-Sim _ _) (step _ _ (uint8-Sim _ _) done))))))

-- SetDisplayObjective
pub record IsSetDisplayObjective (pk : SetDisplayObjective) : Type 0 where
  pub display_slot : IsText pk.display_slot
  pub objective_name : IsText pk.objective_name
  pub display_name : IsText pk.display_name
  pub criteria_name : IsText pk.criteria_name
  pub sort_order : IsU32 pk.sort_order

pub marshal_set_display_objective-Sim :
    (limits : Bool) (pk : SetDisplayObjective)
    → IsSetDisplayObjective pk
    → Sim 1
        (marshal_set_display_objective writer pk)
        (marshal_set_display_objective (reader limits) new_set_display_objective)
        pk
unfolding marshal_set_display_objective
marshal_set_display_objective-Sim limits pk h = step _ _ (string-Sim _ _ h.display_slot) (
    step _ _ (string-Sim _ _ h.objective_name) (
      step _ _ (string-Sim _ _ h.display_name) (
        step _ _ (string-Sim _ _ h.criteria_name) (step _ _ (varint32-Sim _ _ h.sort_order) done))))

-- SetHud
pub record IsSetHud (pk : SetHud) : Type 0 where
  pub elements : IsSlice IsU32 pk.elements
  pub visibility : IsU32 pk.visibility

pub marshal_set_hud-Sim :
    (limits : Bool) (pk : SetHud)
    → IsSetHud pk
    → Sim 1 (marshal_set_hud writer pk) (marshal_set_hud (reader limits) new_set_hud) pk
unfolding marshal_set_hud
marshal_set_hud-Sim limits pk h =
    step _ _ (func_slice-Sim IsU32 0 _ _ (λ v h. varint32-Sim v _ h) limits _ _ h.elements)
      (step _ _ (varint32-Sim _ _ h.visibility) done)
