-- ===== src/Conn/Runs.antt =====
-- A listener's Conn at concrete inputs.
use gophertunnel.Prelude.{ℕ, true, false, none, some, List, [], ◌∷◌, ◌≡◌, refl}
use gophertunnel.Prelude.Results.{ok, err}
use gophertunnel.Faults.{bad_server_token}
use gophertunnel.Packs.{default_delivery_config}
use gophertunnel.Conn.Messages
use gophertunnel.Conn.Messages.{Message, carries}
use gophertunnel.Conn.State.{Env, Conn, ◌>>=◌, ◌>>◌, modify, ignore, flush, write_packet, expect}
use gophertunnel.Conn.Server.{
  select_protocol, handle_login, admit, protect, handle_client_to_server_handshake, announce_packs,
  legacy_login, handle_resource_pack_client_response, enable_encryption, enable_packet_encryption,
}
use gophertunnel.Conn.Receive.{
  dispatch, handle_packet, decode_frame, handle, receive_packet, receive,
}
use gophertunnel.Conn.Stages.{Admitted}
use gophertunnel.Conn.Events.{Event, arrives, step, run, arrived, new_listener_conn}
use gophertunnel.Conn.Session.{run-Admitted}
use gophertunnel.Packs.Queue.{DownloadingPack, ResourcePackQueue, empty_queue}
use gophertunnel.Packet.PackTransfer.{ResourcePackChunkData}
use gophertunnel.Conn.Order.{receive_all, read_all, read_all-receive_all}

abbrev open_env : Env
open_env = record {
  accepted_proto = 2225 ∷ [];
  compression_selector = λ proto. none;
  compression_threshold = 256;
  compression_by_id = λ id. true;
  parse_login =
      λ request. (7 ∷ [], some (record { xbox_live_authenticated = true; public_key = 9 ∷ [] }));
  auth_enabled = true;
  not_authenticated_message = [];
  verify_public_key = λ key. true;
  allow = λ identity. none;
  disable_encryption = false;
  server_jwt = some (5 ∷ []);
  encryption_key = λ key. some (3 ∷ key);
  open_server_jwt = λ jwt. err bad_server_token;
  fetch_resource_packs = λ identity packs. packs;
  texture_packs_required = false;
  force_disable_vibrant_visuals = false;
  resource_pack_delivery = default_delivery_config;
  pre_spawn_packets = [];
  download_resource_pack = λ uuid version index total. true;
  cache_load = λ key. none;
  read_pack = λ content. none;
  uuid_string = λ uuid. uuid;
  pick = 0;
}

-- A player who joins without asking for network settings.
abbrev player_login : List Event
player_login =
    arrives (carries (Messages.login (record { client_protocol = 2225; connection_request = [] })))
    ∷ arrives (carries Messages.client_to_server_handshake)
    ∷ arrives (
        carries (
          Messages.resource_pack_client_response (record { response = 3; packs_to_download = [] })))
    ∷ []

abbrev logged_in_conn : Conn
logged_in_conn = (run open_env player_login (new_listener_conn 1 [] [] true)).1

player_login_runs :
    run open_env player_login (new_listener_conn 1 [] [] true) ≡ (ok tt, logged_in_conn)
unfolding step receive receive_packet handle handle_packet dispatch decode_frame ◌>>=◌ modify ignore
    flush write_packet expect select_protocol handle_login admit protect
    handle_client_to_server_handshake announce_packs legacy_login
    handle_resource_pack_client_response enable_encryption enable_packet_encryption
player_login_runs = refl

run-Admitted_example :
    (logged_in_conn.logged_in ≡ true → logged_in_conn.authenticated ≡ true)
    × (logged_in_conn.authenticated ≡ true
        → Admitted open_env true (arrived player_login) logged_in_conn)
run-Admitted_example =
    run-Admitted open_env 1 [] [] true player_login logged_in_conn player_login_runs

abbrev spawned_conn : Conn
spawned_conn = record (new_listener_conn 1 [] [] false) { logged_in = true }

read_all-receive_all_example :
    (receive_all open_env (Messages.other 9 [] ∷ (Messages.other 10 [] ∷ [])) >> read_all 2)
      spawned_conn
    ≡ (ok (Messages.other 9 [] ∷ (Messages.other 10 [] ∷ [])), spawned_conn)
read_all-receive_all_example =
    read_all-receive_all open_env (Messages.other 9 [] ∷ (Messages.other 10 [] ∷ [])) spawned_conn
      refl refl (refl, (refl, tt))

-- The chunks of a pack of five bytes, two of them at a time.
abbrev half_way : ℕ → List ℕ → DownloadingPack
half_way n bytes = record {
  buf = bytes;
  chunk_size = 2;
  size = 5;
  expected_index = n;
  content_key = [];
  cache_key = record { uuid = 49 ∷ 50 ∷ []; version = 51 ∷ []; size = 5 };
  id_copy = 49 ∷ 50 ∷ 95 ∷ 51 ∷ [];
  requested = n;
  chunk_count = 3;
}

abbrev awaiting : DownloadingPack → ResourcePackQueue
awaiting d = record empty_queue { awaiting_packs = (49 ∷ 50 ∷ [], d) ∷ [] }

abbrev second_chunk : ResourcePackChunkData
second_chunk = record {
  uuid = 49 ∷ 50 ∷ 95 ∷ 51 ∷ [];
  chunk_index = 1;
  data_offset = 2;
  data' = 3 ∷ 4 ∷ [];
}
