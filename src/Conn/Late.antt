-- ===== src/Conn/Late.antt =====
-- The handlers of an authenticated Conn of a listener (minecraft/conn.go), and what they leave alone.
use gophertunnel.Prelude.{
  ℕ, Bool, true, false, Option, none, some, List, [], ◌∷◌, ◌≡◌, refl, ◌==◌, length, All,
  if◌then◌else◌,
}
use gophertunnel.Prelude.Results.{Result}
use gophertunnel.Faults.{Fault, unknown_response}
use gophertunnel.Packet.Login.{ClientCacheStatus}
use gophertunnel.Packet.Spawning.{RequestChunkRadius, SetLocalPlayerAsInitialised}
use gophertunnel.Packet.PackInfo.{ResourcePackDataInfo}
use gophertunnel.Packet.PackTransfer.{ResourcePackChunkRequest}
use gophertunnel.Packs.Queue.{ResourcePackQueue}
use gophertunnel.Conn.Messages.{
  Message, GameData, ResourcePackClientResponse, pack_response_refused, pack_response_send_packs,
  pack_response_all_packs_downloaded, pack_response_completed,
}
use gophertunnel.Conn.State.{
  Env, Conn, pure, raise, modify, ignore, expect, write_packet, flush, close, close_spawn,
}
use gophertunnel.Conn.Packs.{with_queue}
use gophertunnel.Conn.Server.{
  announce_packs, one_of, handle_client_cache_status, handle_resource_pack_client_response,
  send_packs, send_stack, next_resource_pack_download, handle_resource_pack_chunk_request,
  handle_request_chunk_radius, handle_set_local_player_as_initialised, send_next, complete_login,
  end_chunk, write_all, write_start_game, start_game_context,
}
use gophertunnel.Conn.Logic.{
  Keeps, IsQuiet, Keeps->>=, Keeps-ignore, Keeps-if, Keeps-modify, Keeps-write_packet, Keeps-flush,
  Keeps-close, Keeps-try_write, Keeps-with_queue, keeps_either,
}

abbrev pub AllOf : List ℕ → List ℕ → Type 0
AllOf allowed ids = All (λ id. one_of id allowed ≡ true) ids

abbrev pub late : List ℕ
late = 8 ∷ 129 ∷ 84 ∷ 69 ∷ 113 ∷ []

-- What the stage of a login depends on, unchanged, but for `logged_in`.
abbrev pub Same : Conn → Conn → Type 0
Same s t =
    (t.authenticated ≡ s.authenticated)
    × (t.expected_ids ≡ s.expected_ids)
    × (t.enc.key ≡ s.enc.key)
    × (t.dec.key ≡ s.dec.key)
    × (t.legacy_network_settings ≡ s.legacy_network_settings)

-- The handlers of an authenticated Conn keep whatever depends on no more than that, and holds with
-- late packets expected.
module _ (env : Env) (P : Conn → Type 0) (same : (s t : Conn) → Same s t → P s → P t)
    (expects : (ids : List ℕ) → AllOf late ids → Keeps P (expect ids)) where
  pub quiet : IsQuiet P
  quiet = record {
    writes = λ s pks p. same s _ (refl, refl, refl, refl, refl) p;
    sends = λ s batches p. same s _ (refl, refl, refl, refl, refl) p;
    closes = λ s p. same s _ (refl, refl, refl, refl, refl) p;
    queues = λ s queue p. same s _ (refl, refl, refl, refl, refl) p;
  }

  pub modifies : (f : Conn → Conn) → ((s : Conn) → Same s (f s)) → Keeps P (modify f)
  modifies f h = Keeps-modify P f λ s p. same s (f s) (h s) p

  pub writes : (pk : Message) → Keeps P (write_packet pk)
  writes = Keeps-write_packet P quiet

  pub tries : (pk : Message) → Keeps P (ignore (write_packet pk))
  tries = Keeps-try_write P quiet

  try_flush : Keeps P (ignore flush)
  try_flush = Keeps-ignore P flush (Keeps-flush P quiet)

  queue-Keeps :
      {A : Type 0} (f : ResourcePackQueue → Result Fault A × ResourcePackQueue)
      → Keeps P (with_queue f)
  queue-Keeps = Keeps-with_queue P quiet

  pub announce_packs-Keeps : Keeps P (announce_packs env)
  unfolding announce_packs
  announce_packs-Keeps = Keeps->>= P _ _ (writes _) λ _.
      Keeps->>= P _ _ (modifies _ (λ s. (refl, refl, refl, refl, refl)))
        λ _. Keeps->>= P _ _ (λ s p. p) λ packs. writes _

  send_next-Keeps : (o : Option ResourcePackDataInfo) → Keeps P (send_next o)
  send_next-Keeps none = λ s p. p
  send_next-Keeps (some pk) = Keeps->>= P _ _ (writes _) λ _. expects (84 ∷ []) (refl, tt)

  next_resource_pack_download-Keeps : Keeps P (next_resource_pack_download env)
  unfolding next_resource_pack_download
  next_resource_pack_download-Keeps = Keeps->>= P _ _ (queue-Keeps _) send_next-Keeps

  pub handle_client_cache_status-Keeps :
      (pk : ClientCacheStatus) → Keeps P (handle_client_cache_status pk)
  unfolding handle_client_cache_status
  handle_client_cache_status-Keeps pk = modifies _ (λ s. (refl, refl, refl, refl, refl))

  send_packs-Keeps : (packs : List (List ℕ)) → Keeps P (send_packs env packs)
  unfolding send_packs
  send_packs-Keeps packs =
      Keeps->>= P _ _ (modifies _ (λ s. (refl, refl, refl, refl, refl)))
        λ _. Keeps->>= P _ _ (queue-Keeps _) λ _. next_resource_pack_download-Keeps

  send_stack-Keeps : Keeps P (send_stack env)
  unfolding send_stack
  send_stack-Keeps = Keeps->>= P _ _ (λ s p. p) λ packs. writes _

  pub handle_resource_pack_client_response-Keeps :
      (pk : ResourcePackClientResponse) → Keeps P (handle_resource_pack_client_response env pk)
  unfolding handle_resource_pack_client_response
  handle_resource_pack_client_response-Keeps pk =
      Keeps-if P (pk.response == pack_response_refused) close _ (Keeps-close P quiet) (
        Keeps-if P (pk.response == pack_response_send_packs)
          (if length pk.packs_to_download == 0
            then pure tt
            else send_packs env pk.packs_to_download)
          _
          (Keeps-if P (length pk.packs_to_download == 0) (pure tt)
            (send_packs env pk.packs_to_download) (λ s p. p)
            (send_packs-Keeps pk.packs_to_download))
          (Keeps-if P (pk.response == pack_response_all_packs_downloaded) (send_stack env) _
            send_stack-Keeps
            (Keeps-if P (pk.response == pack_response_completed) complete_login
              (raise unknown_response) (modifies _ (λ s. (refl, refl, refl, refl, refl)))
              (λ s p. p))))

  end_chunk-Keeps : (last downloaded : Bool) → Keeps P (end_chunk env last downloaded)
  end_chunk-Keeps false downloaded = λ s p. p
  end_chunk-Keeps true false = Keeps-ignore P _ next_resource_pack_download-Keeps
  end_chunk-Keeps true true = expects (8 ∷ []) (refl, tt)

  pub handle_resource_pack_chunk_request-Keeps :
      (pk : ResourcePackChunkRequest) → Keeps P (handle_resource_pack_chunk_request env pk)
  unfolding handle_resource_pack_chunk_request
  handle_resource_pack_chunk_request-Keeps pk = Keeps->>= P _ _ (queue-Keeps _) λ served.
      Keeps->>= P _ _ (writes _) λ _.
        Keeps->>= P _ _ (Keeps-flush P quiet)
          λ _. Keeps->>= P _ _ (queue-Keeps _) λ downloaded. end_chunk-Keeps served.1 downloaded

  write_all-Keeps : (pks : List Message) → Keeps P (write_all pks)
  write_all-Keeps [] = λ s p. p
  write_all-Keeps (pk ∷ pks) = Keeps->>= P _ _ (writes pk) λ _. write_all-Keeps pks

  pub handle_request_chunk_radius-Keeps :
      (pk : RequestChunkRadius) → Keeps P (handle_request_chunk_radius env pk)
  unfolding handle_request_chunk_radius
  handle_request_chunk_radius-Keeps pk =
      Keeps-if P _ _ _ (λ s p. p)
        (Keeps->>= P _ _ (expects (113 ∷ []) (refl, tt)) λ _.
          Keeps->>= P _ _ (λ s p. p)
            λ old. Keeps->>= P _ _ (tries _) λ _.
              Keeps->>= P _ _ (modifies _ (λ s. (refl, refl, refl, refl, refl))) λ _.
                Keeps->>= P _ _ (write_all-Keeps env.pre_spawn_packets)
                  λ _. Keeps->>= P _ _ (tries _) λ _. tries _)

  close_spawn-Keeps : Keeps P close_spawn
  unfolding close_spawn
  close_spawn-Keeps s p =
      keeps_either P quiet s.spawned _ _ p (same s _ (refl, refl, refl, refl, refl) p)

  pub handle_set_local_player_as_initialised-Keeps :
      (pk : SetLocalPlayerAsInitialised) → Keeps P (handle_set_local_player_as_initialised pk)
  unfolding handle_set_local_player_as_initialised
  handle_set_local_player_as_initialised-Keeps pk =
      Keeps->>= P _ _ (λ s p. p)
        λ expected.
          Keeps-if P _ _ _ (λ s p. p)
            (Keeps->>= P _ _ (λ s p. p)
              λ waiting.
                Keeps-if P _ _ _
                  (Keeps->>= P _ _ (modifies _ (λ s. (refl, refl, refl, refl, refl)))
                    λ _. close_spawn-Keeps)
                  (λ s p. p))

  write_start_game-Keeps : Keeps P write_start_game
  unfolding write_start_game
  write_start_game-Keeps = Keeps->>= P _ _ (expects (69 ∷ 113 ∷ []) (refl, (refl, tt))) λ _.
      Keeps->>= P _ _ (λ s p. p)
        λ data'. Keeps->>= P _ _ (Keeps-if P _ _ _ (tries _) (λ s p. p)) λ _.
          Keeps->>= P _ _ (tries _) λ _.
            Keeps->>= P _ _ (tries _)
              λ _. Keeps->>= P _ _ (tries _) λ _. Keeps->>= P _ _ (tries _) λ _. try_flush

  pub start_game_context-Keeps : (data' : GameData) → Keeps P (start_game_context data')
  unfolding start_game_context
  start_game_context-Keeps data' =
      Keeps->>= P _ _ (λ s p. p)
        λ received.
          Keeps-if P _ _ _ (λ s p. p)
            (Keeps->>= P _ _ (modifies _ (λ s. (refl, refl, refl, refl, refl)))
              λ _. write_start_game-Keeps)
