-- ===== src/Conn/Events.antt =====
-- What happens to a listener's Conn (minecraft/listener.go): its creation, and runs of packets that
-- arrive and calls of its user in any order.
use gophertunnel.Prelude.{ℕ, Bool, true, false, none, some, List, [], ◌∷◌, if◌then◌else◌}
use gophertunnel.Packs.{Pack}
use gophertunnel.Conn.Messages.{Message, Frame, GameData}
use gophertunnel.Conn.State.{
  Env, Conn, Coder, Action, Done, pure, ◌>>=◌, ◌>>◌, gets, ignore, when, write_packet, flush, close,
}
use gophertunnel.Conn.Server.{start_game_context}
use gophertunnel.Conn.Receive.{read_packet, receive}

-- The Conn that `createConn` makes, for a listener with a compression, packs and a name for its world.
abbrev pub new_coder : Coder
new_coder = record { compression = none; threshold = 0; legacy = false; key = none }

abbrev pub new_listener_conn : ℕ → List Pack → List ℕ → Bool → Conn
new_listener_conn compression packs world_name legacy = record {
  proto = 2225;
  compression = if legacy then 0 else compression;
  legacy_network_settings = legacy;
  enc = if legacy then (record new_coder { compression = some 0; legacy = true }) else new_coder;
  dec = if legacy then (record new_coder { compression = some 0; legacy = true }) else new_coder;
  buffered_send = [];
  sent = [];
  identity_data = [];
  ready_to_login = false;
  authenticated = false;
  logged_in = false;
  waiting_for_spawn = false;
  game_data_received = false;
  spawned = false;
  expected_ids = 193 ∷ 1 ∷ [];
  deferred_packets = [];
  resource_packs = packs;
  ignored_resource_packs = [];
  pack_queue = none;
  downloads = [];
  cache_enabled = false;
  game_data = record {
    world_name = world_name;
    entity_runtime_id = 0;
    settings = [];
    dimensions = [];
    items = [];
    chunk_radius = 0;
  };
  shield_id = 0;
  closed = false;
}

-- What happens to a listener's Conn: a packet arrives, or one of its methods is called. The user
-- has it, and can start the game, once it is logged in (`handleConn` of minecraft/listener.go).
pub data Event : Type 0 where
  arrives : Frame → Event
  starts_game : GameData → Event
  writes : Message → Event
  flushes reads closes : Event

unfoldable pub step : Env → Event → Action Done
step env (arrives f) = receive env f
step env (starts_game data') = do
  accepted ← gets (λ s. s.logged_in)
  when accepted (start_game_context data')
step env (writes pk) = ignore (write_packet pk)
step env flushes = ignore flush
step env reads = ignore read_packet
step env closes = close

-- Events in turn, up to the first error, at which `handleConn` closes the Conn and ends.
abbrev pub run : Env → List Event → Action Done
run env [] = pure tt
run env (e ∷ es) = step env e >> run env es

-- The packets among the events.
abbrev pub arrived : List Event → List Frame
arrived [] = []
arrived ((arrives f) ∷ es) = f ∷ arrived es
arrived ((starts_game data') ∷ es) = arrived es
arrived ((writes pk) ∷ es) = arrived es
arrived (flushes ∷ es) = arrived es
arrived (reads ∷ es) = arrived es
arrived (closes ∷ es) = arrived es
