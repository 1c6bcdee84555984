-- ===== src/Packs/Delivery.antt =====
-- The delivery of one resource pack, from the listener's description of it to the last chunk.
use gophertunnel.Prelude.{
  ℕ, ◌+◌, ◌*◌, ◌/◌, ◌%◌, ◌^◌, ◌≤◌, ◌<◌, true, false, Bool-cases, inl, inr, some, List, [], ◌∷◌,
  ◌++◌, ◌≡◌, ◌≢◌, All, refl, ap, arith, if◌then◌else◌, ◌==◌, length, take_all,
}
use gophertunnel.Prelude.Results.{ok}
use gophertunnel.Prelude.Maps.{find, remove}
use gophertunnel.Packs.{Pack, data_chunk_count}
use gophertunnel.Packet.PackInfo.{ResourcePackDataInfo}
use gophertunnel.Packs.Queue.{
  DownloadingPack, ResourcePackQueue, cut, rounds, pick_entry, next_pack, start_named,
  start_download, pack_type,
}
use gophertunnel.Packs.Transfer.{le-mul, serving, taking, download, download-serving}
use native.Mathlib.Nat.{div-add-mod, mod-eq_of_lt, zero-mul}

not_eq→not-== : (a b : ℕ) → a ≢ b → (a == b) ≡ false
not_eq→not-== a b h = ground arith

cut-uuid : (s t : List ℕ) → All (λ b. b ≢ 95) s → (cut (s ++ 95 ∷ t)).0 ≡ s
cut-uuid [] t h = refl
cut-uuid (b ∷ s) t (h, hs) = rw (not_eq→not-== b 95 h) (ap (λ r. b ∷ r) (cut-uuid s t hs))

-- The chunks are no more than the bytes, so the client's count does not overflow.
rounds-value :
    (len c : ℕ) → 0 < c → len < 2 ^ 31 → rounds len c ≡ len / c + (if len % c == 0 then 0 else 1)
rounds-value len c pos small =
    let split = div-add-mod len c in
    let quotient : len / c ≤ len / c * c = le-mul (len / c) c pos in
    elim (Bool-cases (len % c == 0)) [
      | inl whole ↦ rw whole (ground arith)
      | inr cut ↦ rw cut (ground arith)
    ]

data_chunk_count-rounds :
    (pack : Pack) (c : ℕ)
    → 0 < c
    → length pack.content < 2 ^ 31
    → data_chunk_count pack c ≡ ok (rounds (length pack.content) c)
unfolding data_chunk_count
data_chunk_count-rounds pack c pos small =
    rw (rounds-value (length pack.content) c pos small)
      (elim (Bool-cases (length pack.content % c == 0)) [
        | inl whole ↦ rw whole (ground arith)
        | inr cut ↦ rw cut (ground arith)
      ])

rounds-small : (len c : ℕ) → rounds len c < 2 ^ 32
rounds-small len c = ground arith

-- The description that `NextPack` sends.
abbrev pub describe : (List ℕ → List ℕ) → Pack → ℕ → ResourcePackDataInfo
describe uuid_string pack c = record {
  uuid = uuid_string pack.uuid ++ 95 ∷ pack.version;
  data_chunk_size = c;
  chunk_count = rounds (length pack.content) c % 2 ^ 32;
  size = length pack.content;
  hash = pack.checksum;
  premium = false;
  pack_type = pack_type pack;
}

next_pack-serving :
    (uuid_string : List ℕ → List ℕ) (pick : ℕ) (queue : ResourcePackQueue) (index : List ℕ)
    (pack : Pack)
    → pick_entry pick queue.packs_to_download ≡ some (index, pack)
    → 0 < queue.chunk_size
    → length pack.content < 2 ^ 31
    → next_pack uuid_string pick queue ≡ (
      ok (some (describe uuid_string pack queue.chunk_size)),
      serving
          (record queue { packs_to_download = remove index queue.packs_to_download })
          pack
          queue.chunk_size
          0,
    )
unfolding next_pack
next_pack-serving uuid_string pick queue index pack picked pos small =
    rw
      (
        next_pack,
        picked,
        data_chunk_count-rounds pack queue.chunk_size pos small,
        zero-mul queue.chunk_size,
      )
      refl

start_named-found :
    (key : List ℕ) (pk : ResourcePackDataInfo) (queue : ResourcePackQueue) (d : DownloadingPack)
    → 0 < pk.data_chunk_size
    → find key queue.downloading_packs ≡ some d
    → (start_named key pk queue).0
      ≡ ok (record d {
        size = pk.size;
        chunk_size = pk.data_chunk_size;
        id_copy = pk.uuid;
        requested = 0;
        chunk_count = rounds pk.size pk.data_chunk_size;
      })
unfolding start_named
start_named-found key pk queue d pos found =
    rw (start_named, found, not_eq→not-== pk.data_chunk_size 0 (λ e. omega arith)) refl

start_download-found :
    (pk : ResourcePackDataInfo) (key : List ℕ) (queue : ResourcePackQueue)
    → (cut pk.uuid).0 ≡ key
    → start_download pk queue ≡ start_named key pk queue
unfolding start_download
start_download-found pk key queue named = rw named refl

start_download-taking :
    (uuid_string : List ℕ → List ℕ) (pack : Pack) (c : ℕ) (queue : ResourcePackQueue)
    (d : DownloadingPack)
    → 0 < c
    → All (λ b. b ≢ 95) (uuid_string pack.uuid)
    → find (uuid_string pack.uuid) queue.downloading_packs ≡ some d
    → d.buf ≡ []
    → d.expected_index ≡ 0
    → (start_download (describe uuid_string pack c) queue).0
      ≡ ok (taking (record d { id_copy = uuid_string pack.uuid ++ 95 ∷ pack.version }) pack c 0)
start_download-taking uuid_string pack c queue d pos plain found fresh_buf fresh_index =
    rw
      (
        start_download-found (describe uuid_string pack c) (uuid_string pack.uuid) queue
            (cut-uuid (uuid_string pack.uuid) pack.version plain),
        start_named-found (uuid_string pack.uuid) (describe uuid_string pack c) queue d pos found,
        fresh_buf,
        fresh_index,
        zero-mul c,
      )
      refl

-- A pack of less than 2 GiB and at least one byte that the listener starts to send arrives:
-- NextPack describes it, the client starts the download from that description, and the exchange of
-- chunks ends, within as many rounds as the client counts, with the listener's last chunk and with
-- the pack's content in the client's buffer; for chunks of 1 to 2^32 - 1 bytes, a UUID written
-- without an underscore, and a client that has not begun this download.
pub download-next_pack :
    (uuid_string : List ℕ → List ℕ) (pick : ℕ) (server client : ResourcePackQueue) (index : List ℕ)
    (pack : Pack) (d : DownloadingPack)
    → pick_entry pick server.packs_to_download ≡ some (index, pack)
    → 0 < server.chunk_size
    → server.chunk_size < 2 ^ 32
    → 0 < length pack.content
    → length pack.content < 2 ^ 31
    → All (λ b. b ≢ 95) (uuid_string pack.uuid)
    → find (uuid_string pack.uuid) client.downloading_packs ≡ some d
    → d.buf ≡ []
    → d.expected_index ≡ 0
    → (info : ResourcePackDataInfo) × (start : DownloadingPack) × (served : ResourcePackQueue)
      × (end : DownloadingPack) × ((next_pack uuid_string pick server).0 ≡ ok (some info))
      × ((start_download info client).0 ≡ ok start)
      × (download uuid_string (length pack.content) (next_pack uuid_string pick server).1 start
          ≡ ok (served, end, true))
      × (end.buf ≡ pack.content)
      × (end.requested ≤ start.chunk_count)
      × (info.chunk_count ≡ start.chunk_count)
download-next_pack uuid_string pick server client index pack d picked pos narrow some_content small
      plain found fresh_buf fresh_index =
    let c = server.chunk_size in
    let queue : ResourcePackQueue = record server {
      packs_to_download = remove index server.packs_to_download;
    } in
    let d' : DownloadingPack = record d { id_copy = uuid_string pack.uuid ++ 95 ∷ pack.version } in
    let named : (cut d'.id_copy).0 ≡ uuid_string pack.uuid =
      cut-uuid (uuid_string pack.uuid) pack.version plain in
    let (last, runs, covers, counted) =
      download-serving uuid_string queue d' pack c pos narrow small named (length pack.content) 0
        (omega (arith, zero-mul c)) (omega arith) in
    let next = next_pack-serving uuid_string pick server index pack picked pos small in
    (
      describe uuid_string pack c,
      taking d' pack c 0,
      serving queue pack c last,
      taking d' pack c last,
      rw next refl,
      start_download-taking uuid_string pack c client d pos plain found fresh_buf fresh_index,
      rw next runs,
      take_all (last * c) pack.content covers,
      counted,
      mod-eq_of_lt (rounds-small (length pack.content) c),
    )
