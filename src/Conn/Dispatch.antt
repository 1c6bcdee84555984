-- ===== src/Conn/Dispatch.antt =====
-- What a listener's Conn does with a packet at each stage of its login.
use gophertunnel.Prelude.{Bool, true, List, [], ◌∷◌, ◌≡◌, Member}
use gophertunnel.Conn.Messages
use gophertunnel.Conn.Messages.{
  Message, Frame, GameData, ResourcePackClientResponse, pack_response_refused,
  pack_response_send_packs, pack_response_all_packs_downloaded, pack_response_completed, carries,
  login, id,
}
use gophertunnel.Conn.State.{Env, Action, Done}
use gophertunnel.Conn.Server.{one_of}
use gophertunnel.Conn.Stages.{
  early, Before, Handshaking, After, Stage, before, handshaking, after, After-Same, After-expects,
  Before-Same, Before-expects,
}
use gophertunnel.Conn.Early.{handle_request_network_settings-Keeps}
use gophertunnel.Conn.Admission.{handshake-After, handle_login-Stage}
use gophertunnel.Conn.Receive.{dispatch}
use gophertunnel.Conn.Late.{
  late, handle_client_cache_status-Keeps, handle_resource_pack_client_response-Keeps,
  handle_resource_pack_chunk_request-Keeps, handle_request_chunk_radius-Keeps,
  handle_set_local_player_as_initialised-Keeps,
}
use gophertunnel.Conn.Logic.{Keeps, Triple, Keeps→Triple, triple_weaken}

module _ (env : Env) (legacy : Bool) (frames : List Frame) where
  pub dispatch-Before :
      (m : Message)
      → Member (carries m) frames
      → one_of (id m) early ≡ true
      → Triple (Before legacy) (dispatch env m) (Stage env legacy frames)
  unfolding dispatch
  dispatch-Before (Messages.request_network_settings pk) arrived h =
      triple_weaken (Before legacy) (Before legacy) (Stage env legacy frames) _ (λ u q. before q)
        (Keeps→Triple (Before legacy) _ (
          handle_request_network_settings-Keeps env (Before legacy) (Before-Same legacy)
            (Before-expects legacy) pk))
  dispatch-Before (Messages.login pk) arrived h = handle_login-Stage env legacy frames pk arrived
  dispatch-Before Messages.client_to_server_handshake arrived h = absurd (cc h)
  dispatch-Before (Messages.client_cache_status pk) arrived h = absurd (cc h)
  dispatch-Before (Messages.resource_pack_client_response pk) arrived h = absurd (cc h)
  dispatch-Before (Messages.resource_pack_chunk_request pk) arrived h = absurd (cc h)
  dispatch-Before (Messages.request_chunk_radius pk) arrived h = absurd (cc h)
  dispatch-Before (Messages.set_local_player_as_initialised pk) arrived h = absurd (cc h)
  dispatch-Before (Messages.network_settings pk) arrived h = absurd (cc h)
  dispatch-Before (Messages.server_to_client_handshake pk) arrived h = absurd (cc h)
  dispatch-Before (Messages.play_status pk) arrived h = absurd (cc h)
  dispatch-Before (Messages.resource_packs_info pk) arrived h = absurd (cc h)
  dispatch-Before (Messages.resource_pack_data_info pk) arrived h = absurd (cc h)
  dispatch-Before (Messages.resource_pack_chunk_data pk) arrived h = absurd (cc h)
  dispatch-Before (Messages.resource_pack_stack pk) arrived h = absurd (cc h)
  dispatch-Before (Messages.start_game pk) arrived h = absurd (cc h)
  dispatch-Before (Messages.item_registry items) arrived h = absurd (cc h)
  dispatch-Before (Messages.chunk_radius_updated pk) arrived h = absurd (cc h)
  dispatch-Before (Messages.dimension_data definitions) arrived h = absurd (cc h)
  dispatch-Before (Messages.disconnect pk) arrived h = absurd (cc h)
  dispatch-Before (Messages.other packet_id payload) arrived h = λ s p. before p

  pub dispatch-Handshaking :
      (m : Message)
      → Member (carries m) frames
      → one_of (id m) (4 ∷ []) ≡ true
      → Triple (Handshaking env legacy frames) (dispatch env m) (Stage env legacy frames)
  unfolding dispatch
  dispatch-Handshaking (Messages.request_network_settings pk) arrived h = absurd (cc h)
  dispatch-Handshaking (Messages.login pk) arrived h = absurd (cc h)
  dispatch-Handshaking Messages.client_to_server_handshake arrived h =
      triple_weaken (Handshaking env legacy frames) (After env legacy frames)
        (Stage env legacy frames) _ (λ u q. after q)
        (λ s p. handshake-After env legacy frames s p.2)
  dispatch-Handshaking (Messages.client_cache_status pk) arrived h = absurd (cc h)
  dispatch-Handshaking (Messages.resource_pack_client_response pk) arrived h = absurd (cc h)
  dispatch-Handshaking (Messages.resource_pack_chunk_request pk) arrived h = absurd (cc h)
  dispatch-Handshaking (Messages.request_chunk_radius pk) arrived h = absurd (cc h)
  dispatch-Handshaking (Messages.set_local_player_as_initialised pk) arrived h = absurd (cc h)
  dispatch-Handshaking (Messages.network_settings pk) arrived h = absurd (cc h)
  dispatch-Handshaking (Messages.server_to_client_handshake pk) arrived h = absurd (cc h)
  dispatch-Handshaking (Messages.play_status pk) arrived h = absurd (cc h)
  dispatch-Handshaking (Messages.resource_packs_info pk) arrived h = absurd (cc h)
  dispatch-Handshaking (Messages.resource_pack_data_info pk) arrived h = absurd (cc h)
  dispatch-Handshaking (Messages.resource_pack_chunk_data pk) arrived h = absurd (cc h)
  dispatch-Handshaking (Messages.resource_pack_stack pk) arrived h = absurd (cc h)
  dispatch-Handshaking (Messages.start_game pk) arrived h = absurd (cc h)
  dispatch-Handshaking (Messages.item_registry items) arrived h = absurd (cc h)
  dispatch-Handshaking (Messages.chunk_radius_updated pk) arrived h = absurd (cc h)
  dispatch-Handshaking (Messages.dimension_data definitions) arrived h = absurd (cc h)
  dispatch-Handshaking (Messages.disconnect pk) arrived h = absurd (cc h)
  dispatch-Handshaking (Messages.other packet_id payload) arrived h = λ s p. handshaking p

  kept :
      (m : Action Done)
      → Keeps (After env legacy frames) m
      → Triple (After env legacy frames) m (Stage env legacy frames)
  kept m h =
      triple_weaken (After env legacy frames) (After env legacy frames) (Stage env legacy frames) m
        (λ u q. after q) (Keeps→Triple (After env legacy frames) m h)

  pub dispatch-After :
      (m : Message)
      → Member (carries m) frames
      → one_of (id m) late ≡ true
      → Triple (After env legacy frames) (dispatch env m) (Stage env legacy frames)
  unfolding dispatch
  dispatch-After (Messages.request_network_settings pk) arrived h = absurd (cc h)
  dispatch-After (Messages.login pk) arrived h = absurd (cc h)
  dispatch-After Messages.client_to_server_handshake arrived h = absurd (cc h)
  dispatch-After (Messages.client_cache_status pk) arrived h = kept _ (
      handle_client_cache_status-Keeps env (After env legacy frames) (After-Same env legacy frames)
        (After-expects env legacy frames) pk)
  dispatch-After (Messages.resource_pack_client_response pk) arrived h = kept _ (
      handle_resource_pack_client_response-Keeps env (After env legacy frames)
        (After-Same env legacy frames) (After-expects env legacy frames) pk)
  dispatch-After (Messages.resource_pack_chunk_request pk) arrived h = kept _ (
      handle_resource_pack_chunk_request-Keeps env (After env legacy frames)
        (After-Same env legacy frames) (After-expects env legacy frames) pk)
  dispatch-After (Messages.request_chunk_radius pk) arrived h = kept _ (
      handle_request_chunk_radius-Keeps env (After env legacy frames) (After-Same env legacy frames)
        (After-expects env legacy frames) pk)
  dispatch-After (Messages.set_local_player_as_initialised pk) arrived h = kept _ (
      handle_set_local_player_as_initialised-Keeps env (After env legacy frames)
        (After-Same env legacy frames) (After-expects env legacy frames) pk)
  dispatch-After (Messages.network_settings pk) arrived h = absurd (cc h)
  dispatch-After (Messages.server_to_client_handshake pk) arrived h = absurd (cc h)
  dispatch-After (Messages.play_status pk) arrived h = absurd (cc h)
  dispatch-After (Messages.resource_packs_info pk) arrived h = absurd (cc h)
  dispatch-After (Messages.resource_pack_data_info pk) arrived h = absurd (cc h)
  dispatch-After (Messages.resource_pack_chunk_data pk) arrived h = absurd (cc h)
  dispatch-After (Messages.resource_pack_stack pk) arrived h = absurd (cc h)
  dispatch-After (Messages.start_game pk) arrived h = absurd (cc h)
  dispatch-After (Messages.item_registry items) arrived h = absurd (cc h)
  dispatch-After (Messages.chunk_radius_updated pk) arrived h = absurd (cc h)
  dispatch-After (Messages.dimension_data definitions) arrived h = absurd (cc h)
  dispatch-After (Messages.disconnect pk) arrived h = absurd (cc h)
  dispatch-After (Messages.other packet_id payload) arrived h = λ s p. after p
