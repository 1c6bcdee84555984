-- ===== src/Conn/State.antt =====
-- The state of a Conn, what it is configured with, and the operations that its handlers share:
-- `expect`, `WritePacket`, `Flush` and `close` of minecraft/conn.go.
use gophertunnel.Prelude.{ℕ, Bool, true, Option, List, [], ◌∷◌, ◌++◌, if◌then◌else◌, length, ◌==◌}
use gophertunnel.Prelude.Results.{Result, ok, err}
use gophertunnel.Faults.{Fault, closed, closed_twice}
use gophertunnel.Packs.{Pack, CacheKey, DeliveryConfig}
use gophertunnel.Packs.Queue.{DownloadingPack, ResourcePackQueue}
use gophertunnel.Conn.Messages.{Message, Frame, GameData}

-- What `login.Parse` finds out.
pub record AuthResult : Type 0 where
  pub xbox_live_authenticated : Bool
  pub public_key : List ℕ

-- The configuration of a Conn, and the code it calls that is no part of this model: `login.Parse`
-- (with the identity data it returns, serialised, beside the AuthResult or its error), the text of a
-- refusal, the key check of the transport (true where the transport has none), `allow` (with the reason of a refusal), the
-- server's token and the key made from a peer's, `FetchResourcePacks`, the pack cache,
-- `resource.Read`, `uuid.UUID.String` and Go's choice of an entry of a map. Compressions are named by
-- their IDs.
pub record Env : Type 0 where
  pub accepted_proto : List ℕ
  pub compression_selector : ℕ → Option ℕ
  pub compression_threshold : ℕ
  pub compression_by_id : ℕ → Bool
  pub parse_login : List ℕ → List ℕ × Option AuthResult
  pub auth_enabled : Bool
  pub not_authenticated_message : List ℕ
  pub verify_public_key : List ℕ → Bool
  pub allow : List ℕ → Option (List ℕ)
  pub disable_encryption : Bool
  pub server_jwt : Option (List ℕ)
  pub encryption_key : List ℕ → Option (List ℕ)
  pub open_server_jwt : List ℕ → Result Fault (List ℕ)
  pub fetch_resource_packs : List ℕ → List Pack → List Pack
  pub texture_packs_required : Bool
  pub force_disable_vibrant_visuals : Bool
  pub resource_pack_delivery : DeliveryConfig
  pub pre_spawn_packets : List Message
  pub download_resource_pack : List ℕ → List ℕ → ℕ → ℕ → Bool
  pub cache_load : CacheKey → Option Pack
  pub read_pack : List ℕ → Option Pack
  pub uuid_string : List ℕ → List ℕ
  pub pick : ℕ

-- What an Encoder or a Decoder was told: EnableCompression or EnableLegacyCompression, and
-- EnableEncryption with a key.
pub record Coder : Type 0 where
  pub compression : Option ℕ
  pub threshold : ℕ
  pub legacy : Bool
  pub key : Option (List ℕ)

-- A batch that Flush sent, and how it was encoded.
pub record Sent : Type 0 where
  pub by : Coder
  pub packets : List Message

pub record Exempted : Type 0 where
  pub uuid : List ℕ
  pub version : List ℕ

-- The Conn. `spawned` is whether the channel `spawn` is closed, and `closed` whether the Conn is.
-- `downloads` are the goroutines of `handleResourcePackDataInfo` that are at the top of their loop, by
-- the ID of their pack.
pub record Conn : Type 0 where
  pub proto : ℕ
  pub compression : ℕ
  pub legacy_network_settings : Bool
  pub enc : Coder
  pub dec : Coder
  pub buffered_send : List Message
  pub sent : List Sent
  pub identity_data : List ℕ
  pub ready_to_login : Bool
  pub authenticated : Bool
  pub logged_in : Bool
  pub waiting_for_spawn : Bool
  pub game_data_received : Bool
  pub spawned : Bool
  pub expected_ids : List ℕ
  pub deferred_packets : List Frame
  pub resource_packs : List Pack
  pub ignored_resource_packs : List Exempted
  pub pack_queue : Option ResourcePackQueue
  pub downloads : List (List ℕ × DownloadingPack)
  pub cache_enabled : Bool
  pub game_data : GameData
  pub shield_id : ℕ
  pub closed : Bool

-- What a method does: a result or an error, and the Conn it leaves, also where it fails.
abbrev pub Action : Type 0 → Type 0
Action A = Conn → Result Fault A × Conn

abbrev pub Done : Type 0
Done = Unit {0}

abbrev pub pure : {A : Type 0} → A → Action A
pure a s = (ok a, s)

abbrev pub raise : {A : Type 0} → Fault → Action A
raise e s = (err e, s)

abbrev pub chain : {A B : Type 0} → (A → Action B) → Result Fault A → Action B
chain f (ok a) s = f a s
chain f (err e) s = (err e, s)

infixl 5 ◌>>=◌ ◌>>◌
unfoldable pub ◌>>=◌ : {A B : Type 0} → Action A → (A → Action B) → Action B
◌>>=◌ m f s = chain f (m s).0 (m s).1

abbrev pub ◌>>◌ : {A B : Type 0} → Action A → Action B → Action B
m >> k = m >>= λ _. k

abbrev pub gets : {A : Type 0} → (Conn → A) → Action A
gets f s = (ok (f s), s)

unfoldable pub modify : (Conn → Conn) → Action Done
modify f s = (ok tt, f s)

-- `_ = f()`
unfoldable pub ignore : {A : Type 0} → Action A → Action Done
ignore m s = (ok tt, (m s).1)

abbrev pub when : Bool → Action Done → Action Done
when c m = if c then m else pure tt

unfoldable pub expect : List ℕ → Action Done
expect ids s = (ok tt, record s { expected_ids = ids })

unfoldable pub write_packet : Message → Action Done
write_packet pk s =
    if s.closed
    then (err closed, s)
    else (ok tt, record s { buffered_send = s.buffered_send ++ pk ∷ [] })

unfoldable pub flush : Action Done
flush s =
    if s.closed then (err closed, s) else if length s.buffered_send == 0 then (ok tt, s) else (
      ok tt,
      record s {
        sent = s.sent ++ record { by = s.enc; packets = s.buffered_send } ∷ [];
        buffered_send = [];
      },
    )

-- Closing a second time does nothing.
unfoldable pub close : Action Done
close s = if s.closed then (ok tt, s) else (ok tt, record (flush s).1 { closed = true })

-- `close(conn.spawn)`, which panics on a closed channel.
unfoldable pub close_spawn : Action Done
close_spawn s = if s.spawned then (err closed_twice, s) else (ok tt, record s { spawned = true })
