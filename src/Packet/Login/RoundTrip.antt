-- ===== src/Packet/Login/RoundTrip.antt =====
-- Login: a fresh packet is read back as it was written, field by field.
use gophertunnel.Prelude.{Bool}
use gophertunnel.Io.Sim.{Sim, step, done}
use gophertunnel.Io.Reader.{reader}
use gophertunnel.Io.Writer.{writer}
use gophertunnel.Io.Prims.{
  uint8-Sim, bool-Sim, uint16-Sim, be_int32-Sim, float32-Sim, byte_slice-Sim,
}
use gophertunnel.Io.Values.{IsU16, IsU32, IsText}
use gophertunnel.Packet.Login.{
  RequestNetworkSettings, new_request_network_settings, marshal_request_network_settings,
  NetworkSettings, new_network_settings, marshal_network_settings, Login, new_login, marshal_login,
  PlayStatus, new_play_status, marshal_play_status, ServerToClientHandshake,
  new_server_to_client_handshake, marshal_server_to_client_handshake, ClientCacheStatus,
  new_client_cache_status, marshal_client_cache_status,
}

-- RequestNetworkSettings
pub record IsRequestNetworkSettings (pk : RequestNetworkSettings) : Type 0 where
  pub client_protocol : IsU32 pk.client_protocol

pub marshal_request_network_settings-Sim :
    (limits : Bool) (pk : RequestNetworkSettings)
    → IsRequestNetworkSettings pk
    → Sim 1
        (marshal_request_network_settings writer pk)
        (marshal_request_network_settings (reader limits) new_request_network_settings)
        pk
unfolding marshal_request_network_settings
marshal_request_network_settings-Sim limits pk h =
    step _ _ (be_int32-Sim _ _ h.client_protocol) done

-- NetworkSettings
pub record IsNetworkSettings (pk : NetworkSettings) : Type 0 where
  pub compression_threshold : IsU16 pk.compression_threshold
  pub compression_algorithm : IsU16 pk.compression_algorithm
  pub client_throttle_scalar : IsU32 pk.client_throttle_scalar

pub marshal_network_settings-Sim :
    (limits : Bool) (pk : NetworkSettings)
    → IsNetworkSettings pk
    → Sim 1
        (marshal_network_settings writer pk)
        (marshal_network_settings (reader limits) new_network_settings)
        pk
unfolding marshal_network_settings
marshal_network_settings-Sim limits pk h = step _ _ (uint16-Sim _ _ h.compression_threshold) (
    step _ _ (uint16-Sim _ _ h.compression_algorithm) (
      step _ _ (bool-Sim _ _)
        (step _ _ (uint8-Sim _ _) (step _ _ (float32-Sim _ _ h.client_throttle_scalar) done))))

-- Login
pub record IsLogin (pk : Login) : Type 0 where
  pub client_protocol : IsU32 pk.client_protocol
  pub connection_request : IsText pk.connection_request

pub marshal_login-Sim :
    (limits : Bool) (pk : Login)
    → IsLogin pk
    → Sim 1 (marshal_login writer pk) (marshal_login (reader limits) new_login) pk
unfolding marshal_login
marshal_login-Sim limits pk h =
    step _ _ (be_int32-Sim _ _ h.client_protocol)
      (step _ _ (byte_slice-Sim _ _ h.connection_request) done)

-- PlayStatus
pub record IsPlayStatus (pk : PlayStatus) : Type 0 where
  pub status : IsU32 pk.status

pub marshal_play_status-Sim :
    (limits : Bool) (pk : PlayStatus)
    → IsPlayStatus pk
    → Sim 1 (marshal_play_status writer pk) (marshal_play_status (reader limits) new_play_status) pk
unfolding marshal_play_status
marshal_play_status-Sim limits pk h = step _ _ (be_int32-Sim _ _ h.status) done

-- ServerToClientHandshake
pub record IsServerToClientHandshake (pk : ServerToClientHandshake) : Type 0 where
  pub jwt : IsText pk.jwt

pub marshal_server_to_client_handshake-Sim :
    (limits : Bool) (pk : ServerToClientHandshake)
    → IsServerToClientHandshake pk
    → Sim 1
        (marshal_server_to_client_handshake writer pk)
        (marshal_server_to_client_handshake (reader limits) new_server_to_client_handshake)
        pk
unfolding marshal_server_to_client_handshake
marshal_server_to_client_handshake-Sim limits pk h = step _ _ (byte_slice-Sim _ _ h.jwt) done

-- ClientCacheStatus
pub marshal_client_cache_status-Sim :
    (limits : Bool) (pk : ClientCacheStatus)
    → Sim 1
        (marshal_client_cache_status writer pk)
        (marshal_client_cache_status (reader limits) new_client_cache_status)
        pk
unfolding marshal_client_cache_status
marshal_client_cache_status-Sim limits pk = step _ _ (bool-Sim _ _) done
