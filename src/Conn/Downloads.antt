-- ===== src/Conn/Downloads.antt =====
-- The goroutines of minecraft/conn.go that download packs, and the packets that they wait for.
use gophertunnel.Prelude.{ℕ, some, ◌++◌, List, [], ◌∷◌}
use gophertunnel.Packs.Queue.{DownloadingPack, ResourcePackQueue}
use gophertunnel.Conn.State.{Conn}
use gophertunnel.Conn.Messages.{resource_pack_chunk_request}

-- A Conn that awaits a pack, with the goroutine of that pack at the top of its loop.
abbrev pub at_request : Conn → ResourcePackQueue → List ℕ → DownloadingPack → Conn
at_request s queue id d = record s { pack_queue = some queue; downloads = (id, d) ∷ [] }

-- That Conn after a round of the goroutine: one request is queued, and the goroutine is at the top
-- again with what it has then.
abbrev pub after_round :
    Conn → ResourcePackQueue → List ℕ → DownloadingPack → DownloadingPack → Conn
after_round s queue id d d' = record s {
  buffered_send =
      s.buffered_send
      ++ resource_pack_chunk_request (record { uuid = d.id_copy; chunk_index = d.requested }) ∷ [];
  pack_queue = some queue;
  downloads = (id, d') ∷ [];
}
