-- ===== src/Packs/Transfer.antt =====
-- The exchange of a resource pack between the two sides of Packs/Queue.antt, one chunk after
-- another: what the client's goroutine requests, what the listener answers, and what the client
-- makes of it.
use gophertunnel.Prelude.{
  ℕ, zero, suc, ◌+◌, ◌*◌, ◌/◌, ◌%◌, ◌^◌, ◌≤◌, ◌<◌, Bool, true, false, ◌&&◌, ◌||◌, not, Bool-cases,
  inl, inr, some, List, [], ◌∷◌, ◌++◌, ◌≡◌, refl, ap, sym, arith, leb, ◌==◌, ==_refl, ==_iff,
  length, take, drop, bytes_equal_refl, length-take, length-drop, if◌then◌else◌,
}
use gophertunnel.Prelude.Results.{Result, ok, ◌>>=◌}
use gophertunnel.Faults.{Fault}
use gophertunnel.Packs.{Pack, read_at}
use gophertunnel.Packs.Queue.{
  DownloadingPack, ResourcePackQueue, cut, serve, take_chunk, rounds, widen_int32,
}
use native.Mathlib.Nat.{
  div-add-mod, mod-lt, lt_of_mul-lt-mul_right, mod-eq_of_lt, zero-add, suc-add, suc-mul,
}

-- One chunk: the request that the goroutine writes, the answer, and the chunk's way to the buffer.
unfoldable pub exchange :
    (List ℕ → List ℕ)
    → ResourcePackQueue
    → DownloadingPack
    → Result Fault (ResourcePackQueue × DownloadingPack × Bool)
exchange uuid_string queue pack =
    let served =
      serve uuid_string (record { uuid = pack.id_copy; chunk_index = pack.requested }) queue in
    served.0 >>= λ r. take_chunk r.0 pack >>= λ pack'. ok (served.1, pack', r.1)

-- Chunks until the listener says that one was the last, in at most as many rounds.
unfoldable pub download :
    (List ℕ → List ℕ)
    → ℕ
    → ResourcePackQueue
    → DownloadingPack
    → Result Fault (ResourcePackQueue × DownloadingPack × Bool)
download uuid_string zero queue pack = ok (queue, pack, false)
download uuid_string (suc n) queue pack =
    exchange uuid_string queue pack >>= λ r. if r.2 then ok r else download uuid_string n r.0 r.1

take-nil : (n : ℕ) → take {A = ℕ} n [] ≡ []
take-nil zero = refl
take-nil (suc n) = refl

take_add : (m n : ℕ) (xs : List ℕ) → take (m + n) xs ≡ take m xs ++ take n (drop m xs)
take_add zero n xs = rw (zero-add n) refl
take_add (suc m) n [] = rw (suc-add m n, take-nil n) refl
take_add (suc m) n (x ∷ xs) = rw (suc-add m n) (ap (λ t. x ∷ t) (take_add m n xs))

widen_small : (i : ℕ) → i < 2 ^ 31 → widen_int32 i ≡ i
widen_small i h = ground arith

pub lt→not-leb : (a b : ℕ) → b < a → leb a b ≡ false
lt→not-leb a b h = ground arith

pub le-mul : (i c : ℕ) → 0 < c → i ≤ i * c
le-mul i c pos = grind arith

leb→le : (a b : ℕ) → leb a b ≡ true → a ≤ b
leb→le a b h = ground arith

not-leb→lt : (a b : ℕ) → leb a b ≡ false → b < a
not-leb→lt a b h = ground arith

add-one : (i : ℕ) → i + 1 ≡ suc i
add-one i = omega arith

-- The number of rounds is that of the chunks that start within the content.
pub rounds-lt : (len c i : ℕ) → 0 < c → len < 2 ^ 31 → i * c < len → i < rounds len c
rounds-lt len c i pos small more =
    let split = div-add-mod len c in
    let short = mod-lt len pos in
    let quotient : len / c ≤ len / c * c = le-mul (len / c) c pos in
    elim (Bool-cases (len % c == 0)) [
      | inl whole ↦
          let below : i < len / c =
            lt_of_mul-lt-mul_right c (omega (arith, (==_iff _ _).0 whole)) in
          rw whole (ground arith)
      | inr cut ↦
          let below : i < suc (len / c) =
            lt_of_mul-lt-mul_right c (omega (arith, suc-mul (len / c) c)) in
          rw cut (ground arith)
    ]

-- The two sides after `i` chunks of `c` bytes of the pack's content.
abbrev pub serving : ResourcePackQueue → Pack → ℕ → ℕ → ResourcePackQueue
serving queue pack c i = record queue {
  current_pack = some pack;
  chunk_size = c;
  current_offset = i * c;
}

abbrev pub taking : DownloadingPack → Pack → ℕ → ℕ → DownloadingPack
taking d pack c i = record d {
  buf = take (i * c) pack.content;
  chunk_size = c;
  size = length pack.content;
  expected_index = i;
  requested = i;
  chunk_count = rounds (length pack.content) c;
}

module _ (uuid_string : List ℕ → List ℕ) (queue : ResourcePackQueue) (d : DownloadingPack)
    (pack : Pack) (c : ℕ) (pos : 0 < c) (narrow : c < 2 ^ 32) (small : length pack.content < 2 ^ 31)
    (named : (cut d.id_copy).0 ≡ uuid_string pack.uuid) where
  pub index_small : (i : ℕ) → i * c < length pack.content → i < 2 ^ 31
  index_small i more = omega (arith, le-mul i c pos)

  answer_end :
      (i : ℕ)
      → i * c < length pack.content
      → leb (length pack.content) ((i * c + length (take c (drop (i * c) pack.content))) % 2 ^ 64)
        ≡ leb (length pack.content) (suc i * c)
  answer_end i more = ground (
    arith,
    length-take c (drop (i * c) pack.content),
    length-drop (i * c) pack.content,
    suc-mul i c,
  )

  serve-serving :
      (i : ℕ)
      → i * c < length pack.content
      → serve uuid_string (record { uuid = d.id_copy; chunk_index = i }) (serving queue pack c i)
        ≡ (
          ok (
            record {
              uuid = d.id_copy;
              chunk_index = i;
              data_offset = i * c;
              data' = take c (drop (i * c) pack.content);
            },
            leb (length pack.content) (suc i * c),
          ),
          serving queue pack c (suc i),
        )
  unfolding serve read_at
  serve-serving i more =
      rw
        (
          named,
          bytes_equal_refl (uuid_string pack.uuid),
          widen_small i (index_small i more),
          mod-eq_of_lt (let h : i * c < 2 ^ 64 = omega arith in h),
          ==_refl (i * c),
          lt→not-leb (2 ^ 63) (i * c) (omega arith),
          answer_end i more,
          mod-eq_of_lt (let h : i * c + c < 2 ^ 64 = omega arith in h),
          sym (suc-mul i c),
        )
        refl

  -- Either the chunk is the last data, or it has the full size.
  chunk_whole :
      (i : ℕ)
      → i * c < length pack.content
      → (not (leb (2 ^ 63) (length pack.content) || leb (length pack.content) (i * c + c))
          && not (length (take c (drop (i * c) pack.content)) % 2 ^ 32 == c))
        ≡ false
  chunk_whole i more =
      ground (arith, length-take c (drop (i * c) pack.content), length-drop (i * c) pack.content)

  take_chunk-taking :
      (i : ℕ)
      → i * c < length pack.content
      → take_chunk
          (record {
            uuid = d.id_copy;
            chunk_index = i;
            data_offset = i * c;
            data' = take c (drop (i * c) pack.content);
          })
          (taking d pack c i)
        ≡ ok (taking d pack c (suc i))
  unfolding take_chunk
  take_chunk-taking i more =
      let len_buf : length (take (i * c) pack.content) ≡ i * c =
        omega (arith, length-take (i * c) pack.content) in
      rw
        (
          len_buf,
          chunk_whole i more,
          ==_refl i,
          lt→not-leb (rounds (length pack.content) c) i
              (rounds-lt (length pack.content) c i pos small more),
          sym (take_add (i * c) c pack.content),
          sym (suc-mul i c),
          mod-eq_of_lt (let h : i + 1 < 2 ^ 32 = omega (arith, index_small i more) in h),
          add-one i,
        )
        refl

  exchange-serving :
      (i : ℕ)
      → i * c < length pack.content
      → exchange uuid_string (serving queue pack c i) (taking d pack c i)
        ≡ ok (
          serving queue pack c (suc i),
          taking d pack c (suc i),
          leb (length pack.content) (suc i * c),
        )
  unfolding exchange
  exchange-serving i more = rw (serve-serving i more, take_chunk-taking i more) refl

  -- From any chunk on, the download ends with the last one, and the content is there.
  pub download-serving :
      (n i : ℕ)
      → i * c < length pack.content
      → length pack.content ≤ i + n
      → (last : ℕ) × (download uuid_string n (serving queue pack c i) (taking d pack c i)
          ≡ ok (serving queue pack c last, taking d pack c last, true))
        × (length pack.content ≤ last * c)
        × (last ≤ rounds (length pack.content) c)
  unfolding download
  download-serving zero i more enough = absurd (omega (arith, le-mul i c pos))
  download-serving (suc n) i more enough =
      elim (Bool-cases (leb (length pack.content) (suc i * c))) [
        | inl ends ↦ (
          suc i,
          rw (exchange-serving i more, ends) refl,
          leb→le (length pack.content) (suc i * c) ends,
          rounds-lt (length pack.content) c i pos small more,
        )
        | inr goes_on ↦
            let (last, runs, covers, counted) =
              download-serving n (suc i) (not-leb→lt (length pack.content) (suc i * c) goes_on)
                (omega arith) in
            (last, rw (exchange-serving i more, goes_on) runs, covers, counted)
      ]
