-- ===== src/Packet/Login.antt =====
-- The packets of the login sequence (minecraft/protocol/packet): their structs and their
-- Marshal functions, which serve both directions.
pub mod RoundTrip
use gophertunnel.Prelude.{Bool, true, false, List, [], ℕ}
use gophertunnel.Io.{
  M, ◌>>=◌, pure, Io, Optional, Vec3, Vec2, BlockPos, ChunkPos, SubChunkPos, Rgba, func_slice,
  func_slice_uint32_length, optional_func, replicate,
}

-- packet/request_network_settings.go
pub record RequestNetworkSettings : Type 0 where
  pub client_protocol : ℕ

abbrev pub new_request_network_settings : RequestNetworkSettings
new_request_network_settings = record { client_protocol = 0 }

unfoldable pub marshal_request_network_settings :
    Io → RequestNetworkSettings → M RequestNetworkSettings
marshal_request_network_settings io pk = do
  client_protocol ← io.be_int32 pk.client_protocol
  pure (record { client_protocol = client_protocol })

-- packet/network_settings.go
pub record NetworkSettings : Type 0 where
  pub compression_threshold : ℕ
  pub compression_algorithm : ℕ
  pub client_throttle : Bool
  pub client_throttle_threshold : ℕ
  pub client_throttle_scalar : ℕ

abbrev pub new_network_settings : NetworkSettings
new_network_settings = record {
  compression_threshold = 0;
  compression_algorithm = 0;
  client_throttle = false;
  client_throttle_threshold = 0;
  client_throttle_scalar = 0;
}

unfoldable pub marshal_network_settings : Io → NetworkSettings → M NetworkSettings
marshal_network_settings io pk = do
  compression_threshold ← io.uint16 pk.compression_threshold
  compression_algorithm ← io.uint16 pk.compression_algorithm
  client_throttle ← io.bool pk.client_throttle
  client_throttle_threshold ← io.uint8 pk.client_throttle_threshold
  client_throttle_scalar ← io.float32 pk.client_throttle_scalar
  pure (record {
    compression_threshold = compression_threshold;
    compression_algorithm = compression_algorithm;
    client_throttle = client_throttle;
    client_throttle_threshold = client_throttle_threshold;
    client_throttle_scalar = client_throttle_scalar;
  })

-- packet/login.go
pub record Login : Type 0 where
  pub client_protocol : ℕ
  pub connection_request : List ℕ

abbrev pub new_login : Login
new_login = record { client_protocol = 0; connection_request = [] }

unfoldable pub marshal_login : Io → Login → M Login
marshal_login io pk = do
  client_protocol ← io.be_int32 pk.client_protocol
  connection_request ← io.byte_slice pk.connection_request
  pure (record { client_protocol = client_protocol; connection_request = connection_request })

-- packet/play_status.go
pub record PlayStatus : Type 0 where
  pub status : ℕ

abbrev pub new_play_status : PlayStatus
new_play_status = record { status = 0 }

unfoldable pub marshal_play_status : Io → PlayStatus → M PlayStatus
marshal_play_status io pk = do status ← io.be_int32 pk.status; pure (record { status = status })

-- packet/server_to_client_handshake.go
pub record ServerToClientHandshake : Type 0 where
  pub jwt : List ℕ

abbrev pub new_server_to_client_handshake : ServerToClientHandshake
new_server_to_client_handshake = record { jwt = [] }

unfoldable pub marshal_server_to_client_handshake :
    Io → ServerToClientHandshake → M ServerToClientHandshake
marshal_server_to_client_handshake io pk = do
  jwt ← io.byte_slice pk.jwt
  pure (record { jwt = jwt })

-- packet/client_cache_status.go
pub record ClientCacheStatus : Type 0 where
  pub enabled : Bool

abbrev pub new_client_cache_status : ClientCacheStatus
new_client_cache_status = record { enabled = false }

unfoldable pub marshal_client_cache_status : Io → ClientCacheStatus → M ClientCacheStatus
marshal_client_cache_status io pk = do
  enabled ← io.bool pk.enabled
  pure (record { enabled = enabled })
