-- ===== src/Packs/Runs.antt =====
-- The resource packs at concrete inputs.
use gophertunnel.Prelude.{ℕ, true, false, some, List, [], ◌∷◌, ◌≡◌, ◌↔◌, ◌≤◌, All, refl, arith}
use gophertunnel.Prelude.Results.{ok}
use gophertunnel.Packs.{Pack}
use gophertunnel.Packs.Queue.{
  ResourcePackQueue, DownloadingPack, empty_queue, next_pack, request, start_download,
}
use gophertunnel.Packs.Requests.{Offered, Waits, Requested, request-Answered}
use gophertunnel.Packs.Transfer.{download}
use gophertunnel.Packs.Delivery.{download-next_pack}
use gophertunnel.Packet.PackInfo.{ResourcePackDataInfo}

-- A UUID by its bytes as they are, a pack of five bytes, and chunks of two.
abbrev plain : List ℕ → List ℕ
plain uuid = uuid

abbrev five_bytes : Pack
five_bytes = record {
  uuid = 49 ∷ 50 ∷ [];
  version = 51 ∷ [];
  modules = [];
  world_template = false;
  download_url = [];
  content = 1 ∷ 2 ∷ 3 ∷ 4 ∷ 5 ∷ [];
  content_key = [];
  checksum = [];
}

abbrev offering : ResourcePackQueue
offering = record empty_queue {
  packs = five_bytes ∷ [];
  packs_to_download = (49 ∷ 50 ∷ [], five_bytes) ∷ [];
  chunk_size = 2;
}

abbrev fresh_download : DownloadingPack
fresh_download = record {
  buf = [];
  chunk_size = 0;
  size = 5;
  expected_index = 0;
  content_key = [];
  cache_key = record { uuid = 49 ∷ 50 ∷ []; version = 51 ∷ []; size = 5 };
  id_copy = [];
  requested = 0;
  chunk_count = 0;
}

abbrev asking : ResourcePackQueue
asking = record empty_queue { downloading_packs = (49 ∷ 50 ∷ [], fresh_download) ∷ [] }

download-next_pack_example :
    (info : ResourcePackDataInfo) × (start : DownloadingPack) × (served : ResourcePackQueue)
    × (end : DownloadingPack) × ((next_pack plain 0 offering).0 ≡ ok (some info))
    × ((start_download info asking).0 ≡ ok start)
    × (download plain 5 (next_pack plain 0 offering).1 start ≡ ok (served, end, true))
    × (end.buf ≡ 1 ∷ 2 ∷ 3 ∷ 4 ∷ 5 ∷ [])
    × (end.requested ≤ start.chunk_count)
    × (info.chunk_count ≡ start.chunk_count)
download-next_pack_example =
    download-next_pack plain 0 offering asking (49 ∷ 50 ∷ []) five_bytes fresh_download refl
      (omega arith) (omega arith) (omega arith) (omega arith)
      ((λ e. omega arith), ((λ e. omega arith), tt)) refl refl refl

-- "12_3" is asked for.
abbrev asked : List (List ℕ)
asked = (49 ∷ 50 ∷ 95 ∷ 51 ∷ []) ∷ []

request-Answered_example :
    (((request plain asked offering).0 ≡ ok tt) ↔ All (Offered plain (five_bytes ∷ [])) asked)
    × ((request plain asked offering).0 ≡ ok tt
        → All
            (Waits plain (five_bytes ∷ []) (request plain asked offering).1.packs_to_download)
            asked)
    × All
        (Requested plain (five_bytes ∷ []) asked)
        (request plain asked offering).1.packs_to_download
request-Answered_example =
    request-Answered plain asked offering (((λ e. omega arith), ((λ e. omega arith), tt)), tt)
