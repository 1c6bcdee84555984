-- ===== src/Packs/Queue.antt =====
-- minecraft/resource_pack_queue.go, and what the handlers of minecraft/conn.go do to the queue: the
-- listener's side, which serves one pack after another in chunks, and the client's, which puts the
-- chunks together. `uuid_string` stands for `uuid.UUID.String`.
use gophertunnel.Prelude.{
  ℕ, zero, suc, ◌+◌, ◌-◌, ◌*◌, ◌/◌, ◌%◌, ◌^◌, Bool, true, false, ◌&&◌, ◌||◌, not, Option, none,
  some, List, [], ◌∷◌, ◌++◌, ltb, leb, ◌==◌, if◌then◌else◌, length, bytes_equal,
}
use gophertunnel.Prelude.Results.{Result, ok, err}
use gophertunnel.Prelude.Maps.{find, put, remove}
use gophertunnel.Faults.{
  Fault, unknown_pack, unexpected_pack, unexpected_chunk, short_chunk, nil_pointer, divide_by_zero,
  blocked,
}
use gophertunnel.Packs.{
  Pack, CacheKey, has_scripts, has_behaviours, has_textures, data_chunk_count, read_at,
}
use gophertunnel.Packet.PackInfo.{ResourcePackDataInfo}
use gophertunnel.Packet.PackTransfer.{ResourcePackChunkData, ResourcePackChunkRequest}

-- `strings.Cut(s, "_")`: what is before the first underscore, what is after it, and whether there
-- is one. `strings.Split(s, "_")[0]` is its first result.
abbrev pub cut : List ℕ → List ℕ × List ℕ × Bool
cut [] = ([], [], false)
cut (c ∷ s) = let rest = cut s in if c == 95 then ([], s, true) else (c ∷ rest.0, rest.1, rest.2)

-- A downloadingPack, with the variables of the goroutine that requests its chunks: the ID it sends
-- (`idCopy`), the chunk it waits for (`i`) and the number of chunks (`chunkCount`, no less than 0).
pub record DownloadingPack : Type 0 where
  pub buf : List ℕ
  pub chunk_size : ℕ
  pub size : ℕ
  pub expected_index : ℕ
  pub content_key : List ℕ
  pub cache_key : CacheKey
  pub id_copy : List ℕ
  pub requested : ℕ
  pub chunk_count : ℕ

pub record ResourcePackQueue : Type 0 where
  pub packs : List Pack
  pub packs_to_download : List (List ℕ × Pack)
  pub current_pack : Option Pack
  pub current_offset : ℕ
  pub pack_amount : ℕ
  pub downloading_packs : List (List ℕ × DownloadingPack)
  pub awaiting_packs : List (List ℕ × DownloadingPack)
  pub chunk_size : ℕ

abbrev pub empty_queue : ResourcePackQueue
empty_queue = record {
  packs = [];
  packs_to_download = [];
  current_pack = none;
  current_offset = 0;
  pack_amount = 0;
  downloading_packs = [];
  awaiting_packs = [];
  chunk_size = 0;
}

-- The test in the inner loop of `Request`.
abbrev pub answers : (List ℕ → List ℕ) → List ℕ → Pack → Bool
answers uuid_string requested pack =
    let c = cut requested in
    bytes_equal c.0 (uuid_string pack.uuid)
    && (not c.2 || (length c.1 == 0) || bytes_equal c.1 pack.version)

-- The inner loop of `Request`.
abbrev pub find_pack : (List ℕ → List ℕ) → List ℕ → List Pack → Option Pack
find_pack uuid_string requested [] = none
find_pack uuid_string requested (pack ∷ packs) =
    let rest = find_pack uuid_string requested packs in
    if answers uuid_string requested pack then some pack else rest

-- The outer loop of `Request`. The packs found before an error stay in the map.
abbrev pub request_loop :
    (List ℕ → List ℕ)
    → List Pack
    → List (List ℕ)
    → List (List ℕ × Pack)
    → Result Fault (Unit {0}) × List (List ℕ × Pack)
request_loop uuid_string packs [] m = (ok tt, m)
request_loop uuid_string packs (id ∷ ids) m = elim (find_pack uuid_string id packs) [
  | none ↦ (err unknown_pack, m)
  | some pack ↦ request_loop uuid_string packs ids (put (uuid_string pack.uuid) pack m)
]

unfoldable pub request :
    (List ℕ → List ℕ)
    → List (List ℕ)
    → ResourcePackQueue
    → Result Fault (Unit {0}) × ResourcePackQueue
request uuid_string ids queue =
    let r = request_loop uuid_string queue.packs ids [] in
    (r.0, record queue { packs_to_download = r.1 })

-- The constants ResourcePackType… of minecraft/protocol/packet/resource_pack_data_info.go.
abbrev pub addon_type : ℕ
addon_type = 1

abbrev pub behaviour_type : ℕ
behaviour_type = 4

abbrev pub resources_type : ℕ
resources_type = 6

abbrev pub skins_type : ℕ
skins_type = 7

abbrev pub world_template_type : ℕ
world_template_type = 8

-- The `switch` of `NextPack`.
unfoldable pub pack_type : Pack → ℕ
pack_type pack =
    if pack.world_template
    then world_template_type
    else if has_textures pack && (has_behaviours pack || has_scripts pack)
    then addon_type
    else if not (has_textures pack) && (has_behaviours pack || has_scripts pack)
    then behaviour_type
    else if has_textures pack
    then resources_type
    else skins_type

-- The first round of a `range` over a map starts at an entry that Go picks: the one at `pick`, or
-- the last where there are fewer.
abbrev pub pick_entry : ℕ → List (List ℕ × Pack) → Option (List ℕ × Pack)
pick_entry pick [] = none
pick_entry zero (entry ∷ m) = some entry
pick_entry (suc pick) (entry ∷ []) = some entry
pick_entry (suc pick) (entry ∷ (other ∷ m)) = pick_entry pick (other ∷ m)

-- `NextPack`: nothing where no pack is left.
unfoldable pub next_pack :
    (List ℕ → List ℕ)
    → ℕ
    → ResourcePackQueue
    → Result Fault (Option ResourcePackDataInfo) × ResourcePackQueue
next_pack uuid_string pick queue = elim (pick_entry pick queue.packs_to_download) [
  | none ↦ (ok none, queue)
  | some (index, pack) ↦
      let queue' : ResourcePackQueue = record queue {
        packs_to_download = remove index queue.packs_to_download;
        current_pack = some pack;
        current_offset = 0;
      } in
      elim (data_chunk_count pack queue.chunk_size) [
        | err e ↦ (err e, queue')
        | ok count ↦ (
          ok (
              some (record {
                uuid = uuid_string pack.uuid ++ 95 ∷ pack.version;
                data_chunk_size = queue.chunk_size;
                chunk_count = count % 2 ^ 32;
                size = length pack.content;
                hash = pack.checksum;
                premium = false;
                pack_type = pack_type pack;
              })),
          queue',
        )
      ]
]

unfoldable pub all_downloaded : ResourcePackQueue → Bool
all_downloaded queue = length queue.packs_to_download == 0

-- A number as the pattern of an int32 that is widened to a uint64.
abbrev pub widen_int32 : ℕ → ℕ
widen_int32 x = if ltb x (2 ^ 31) then x else x + (2 ^ 64 - 2 ^ 32)

-- `handleResourcePackChunkRequest` up to the response that it writes, and whether that is the last
-- chunk of the pack. The error on an offset divides by the chunk size.
unfoldable pub serve :
    (List ℕ → List ℕ)
    → ResourcePackChunkRequest
    → ResourcePackQueue
    → Result Fault (ResourcePackChunkData × Bool) × ResourcePackQueue
serve uuid_string pk queue = elim queue.current_pack [
  | none ↦ (err nil_pointer, queue)
  | some pack ↦
      let offset = queue.current_offset in
      let queue' : ResourcePackQueue = record queue {
        current_offset = (offset + queue.chunk_size) % 2 ^ 64;
      } in
      if not (bytes_equal (uuid_string pack.uuid) (cut pk.uuid).0)
      then (err unexpected_pack, queue)
      else if not (offset == (widen_int32 pk.chunk_index * queue.chunk_size) % 2 ^ 64)
      then if queue.chunk_size == 0
        then (err divide_by_zero, queue)
        else (err unexpected_chunk, queue)
      else elim (read_at pack queue.chunk_size offset) [
        | err e ↦ (err e, queue')
        | ok bytes ↦ (
          ok (
            record {
              uuid = pk.uuid;
              chunk_index = pk.chunk_index;
              data_offset = offset;
              data' = bytes;
            },
            leb (length pack.content) ((offset + length bytes) % 2 ^ 64),
          ),
          queue',
        )
      ]
]

-- The number of rounds of the goroutine's loop: `chunkCount`, or 0 where that int32 is negative.
abbrev pub rounds : ℕ → ℕ → ℕ
rounds size chunk_size =
    let count = ((size / chunk_size) + (if size % chunk_size == 0 then 0 else 1)) % 2 ^ 32 in
    if ltb count (2 ^ 31) then count else 0

-- `handleResourcePackDataInfo` up to the start of the goroutine, for the pack named `id`. The panic
-- on a chunk size of 0 comes after the pack was moved.
unfoldable pub start_named :
    List ℕ
    → ResourcePackDataInfo
    → ResourcePackQueue
    → Result Fault DownloadingPack × ResourcePackQueue
start_named id pk queue = elim (find id queue.downloading_packs) [
  | none ↦ (err unknown_pack, queue)
  | some pack ↦
      let pack' : DownloadingPack = record pack {
        size = pk.size;
        chunk_size = pk.data_chunk_size;
        id_copy = pk.uuid;
        requested = 0;
        chunk_count = rounds pk.size pk.data_chunk_size;
      } in
      (
        if pk.data_chunk_size == 0 then err divide_by_zero else ok pack',
        record queue {
          downloading_packs = remove id queue.downloading_packs;
          awaiting_packs = put id pack' queue.awaiting_packs;
        },
      )
]

unfoldable pub start_download :
    ResourcePackDataInfo → ResourcePackQueue → Result Fault DownloadingPack × ResourcePackQueue
start_download pk queue = start_named (cut pk.uuid).0 pk queue

-- The checks of `handleResourcePackChunkData`, the counting of the chunk, and the goroutine's round
-- that takes it. An int made of a size from 2^63 on is negative. A goroutine that has left its loop
-- takes no chunk, and the sender waits.
unfoldable pub take_chunk : ResourcePackChunkData → DownloadingPack → Result Fault DownloadingPack
take_chunk pk pack =
    let last_data = leb (2 ^ 63) pack.size || leb pack.size (length pack.buf + pack.chunk_size) in
    if not last_data && not (length pk.data' % 2 ^ 32 == pack.chunk_size)
    then err short_chunk
    else if not (pk.chunk_index == pack.expected_index)
    then err unexpected_chunk
    else if leb pack.chunk_count pack.requested
    then err blocked
    else ok (record pack {
      expected_index = (pack.expected_index + 1) % 2 ^ 32;
      buf = pack.buf ++ pk.data';
      requested = pack.requested + 1;
    })
