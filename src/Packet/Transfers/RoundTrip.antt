-- ===== src/Packet/Transfers/RoundTrip.antt =====
-- Transfers: a fresh packet is read back as it was written, field by field.
use gophertunnel.Prelude.{Bool, []}
use gophertunnel.Io.Sim.{Sim, step, done}
use gophertunnel.Io.{replicate}
use gophertunnel.Io.Reader.{reader}
use gophertunnel.Io.Writer.{writer}
use gophertunnel.Io.Prims.{bool-Sim, uint16-Sim, string-Sim}
use gophertunnel.Io.Values.{IsU16, IsText, IsOptional, IsUuid, uuid-Sim, optional_func-Sim}
use gophertunnel.Packet.Transfers.{
  GatheringJoinInfo, new_gathering_join_info, marshal_gathering_join_info, Transfer, new_transfer,
  marshal_transfer,
}

-- GatheringJoinInfo
pub record IsGatheringJoinInfo (pk : GatheringJoinInfo) : Type 0 where
  pub experience_id : IsUuid pk.experience_id
  pub experience_name : IsText pk.experience_name
  pub experience_world_id : IsOptional IsUuid (replicate 16 0) pk.experience_world_id
  pub experience_world_name : IsOptional IsText [] pk.experience_world_name
  pub creator_id : IsText pk.creator_id
  pub target_id : IsOptional IsUuid (replicate 16 0) pk.target_id
  pub scenario_id : IsOptional IsText [] pk.scenario_id
  pub server_id : IsOptional IsText [] pk.server_id

pub marshal_gathering_join_info-Sim :
    (limits : Bool) (pk : GatheringJoinInfo)
    → IsGatheringJoinInfo pk
    → Sim 1
        (marshal_gathering_join_info writer pk)
        (marshal_gathering_join_info (reader limits) new_gathering_join_info)
        pk
unfolding marshal_gathering_join_info
marshal_gathering_join_info-Sim limits pk h = step _ _ (uuid-Sim _ _ h.experience_id) (
    step _ _ (string-Sim _ _ h.experience_name) (
      step _ _
        (optional_func-Sim IsUuid (replicate 16 0) _ _ (λ v h. uuid-Sim v _ h) limits _ _
          h.experience_world_id)
        (step _ _
          (optional_func-Sim IsText [] _ _ (λ v h. string-Sim v _ h) limits _ _
            h.experience_world_name)
          (step _ _ (string-Sim _ _ h.creator_id) (
            step _ _
              (optional_func-Sim IsUuid (replicate 16 0) _ _ (λ v h. uuid-Sim v _ h) limits _ _
                h.target_id)
              (step _ _
                (optional_func-Sim IsText [] _ _ (λ v h. string-Sim v _ h) limits _ _ h.scenario_id)
                (step _ _
                  (optional_func-Sim IsText [] _ _ (λ v h. string-Sim v _ h) limits _ _ h.server_id)
                  done)))))))

-- Transfer
pub record IsTransfer (pk : Transfer) : Type 0 where
  pub address : IsText pk.address
  pub port : IsU16 pk.port
  pub gathering_join_info :
      IsOptional IsGatheringJoinInfo new_gathering_join_info pk.gathering_join_info

pub marshal_transfer-Sim :
    (limits : Bool) (pk : Transfer)
    → IsTransfer pk
    → Sim 1 (marshal_transfer writer pk) (marshal_transfer (reader limits) new_transfer) pk
unfolding marshal_transfer
marshal_transfer-Sim limits pk h = step _ _ (string-Sim _ _ h.address) (
    step _ _ (uint16-Sim _ _ h.port) (
      step _ _ (bool-Sim _ _) (
        step _ _
          (optional_func-Sim IsGatheringJoinInfo new_gathering_join_info _ _
            (marshal_gathering_join_info-Sim limits) limits _ _ h.gathering_join_info)
          done)))
