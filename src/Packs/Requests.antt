-- ===== src/Packs/Requests.antt =====
-- Which requests `resourcePackQueue.Request` answers, and with which packs.
use gophertunnel.Prelude.{
  ℕ, false, Bool-cases, inl, inr, none, some, Option-cases, List, [], ◌∷◌, ◌≡◌, ◌↔◌, All, Member,
  Member-cons, refl, ap, sym, ◌∙◌,
}
use mathlib.Core.Path.{subst}
use gophertunnel.Prelude.Results.{ok}
use gophertunnel.Prelude.Maps.{find, put, put-All, put-Some, find-put}
use gophertunnel.Packs.{Pack}
use gophertunnel.Packs.Queue.{ResourcePackQueue, answers, find_pack, request_loop, request}
use gophertunnel.Packs.Names.{Names, Plain, answers-Names, Names-answers}

abbrev pub Offered : (List ℕ → List ℕ) → List Pack → List ℕ → Type 0
Offered uuid_string packs id = (pack : Pack) × Member pack packs × Names uuid_string pack id

-- A pack of the queue that the request names, under whose UUID a pack waits to be sent.
abbrev pub Waits : (List ℕ → List ℕ) → List Pack → List (List ℕ × Pack) → List ℕ → Type 0
Waits uuid_string packs m id =
    (pack : Pack) × (sent : Pack) × Member pack packs
    × Names uuid_string pack id
    × (find (uuid_string pack.uuid) m ≡ some sent)

-- A waiting pack: it is of the queue, under its UUID, and one of the requests names it.
abbrev pub Requested : (List ℕ → List ℕ) → List Pack → List (List ℕ) → List ℕ × Pack → Type 0
Requested uuid_string packs ids e =
    (id : List ℕ) × (e.0 ≡ uuid_string e.1.uuid)
    × Member e.1 packs
    × Member id ids
    × Names uuid_string e.1 id

All-Member : (P : Pack → Type 0) {p : Pack} (packs : List Pack) → All P packs → Member p packs → P p
All-Member P [] all m = elim m [ ]
All-Member P (q ∷ packs) (first, all) m = elim (Member-cons packs m) [
  | inl same ↦ subst P (sym same) first
  | inr m' ↦ All-Member P packs all m'
]

module _ (uuid_string : List ℕ → List ℕ) where
  find_pack-some :
      (id : List ℕ) (packs : List Pack) {pack : Pack}
      → find_pack uuid_string id packs ≡ some pack
      → Member pack packs × Names uuid_string pack id
  find_pack-some id [] h = cc
  find_pack-some id (p ∷ packs) {pack = pack} h = elim (Bool-cases (answers uuid_string id p)) [
    | inl holds ↦
        let found : p ≡ pack = cc (h, holds) in
        subst (λ q. Member q (p ∷ packs) × Names uuid_string q id) found
          (Member.here, answers-Names uuid_string id p holds)
    | inr fails ↦
        let (m, named) = find_pack-some id packs (rw fails at h) in (Member.there m, named)
  ]

  find_pack-none :
      (id : List ℕ) (packs : List Pack) {pack : Pack}
      → find_pack uuid_string id packs ≡ none
      → Member pack packs
      → answers uuid_string id pack ≡ false
  find_pack-none id [] h m = elim m [ ]
  find_pack-none id (p ∷ packs) h m = elim (Bool-cases (answers uuid_string id p)) [
    | inl holds ↦ absurd (cc (h, holds))
    | inr fails ↦ elim (Member-cons packs m) [
      | inl same ↦ ap (answers uuid_string id) same ∙ fails
      | inr m' ↦ find_pack-none id packs (rw fails at h) m'
    ]
  ]

  request_loop-Offered :
      (packs : List Pack) (ids : List (List ℕ)) (m : List (List ℕ × Pack))
      → All (λ p. Plain (uuid_string p.uuid)) packs
      → ((request_loop uuid_string packs ids m).0 ≡ ok tt) ↔ All (Offered uuid_string packs) ids
  request_loop-Offered packs [] m plain = (λ e. tt, λ all. refl)
  request_loop-Offered packs (id ∷ ids) m plain =
      elim (Option-cases (find_pack uuid_string id packs)) [
        | inl missing ↦ (
          λ e. cc (rw (request_loop, missing) at e),
          λ all.
              let (p, sent, named) = all.0 in
              absurd (
                cc (
                  find_pack-none id packs missing sent,
                  Names-answers uuid_string id p
                      (All-Member (λ q. Plain (uuid_string q.uuid)) packs plain sent) named,
                )),
        )
        | inr (pack, found) ↦
            let (sent, named) = find_pack-some id packs found in
            let rest = request_loop-Offered packs ids (put (uuid_string pack.uuid) pack m) plain in
            (
              λ e. ((pack, sent, named), rest.0 (rw (request_loop, found) at e)),
              λ all. rw (request_loop, found) (rest.1 all.1),
            )
      ]

  -- What waits goes on waiting while further requests are answered.
  request_loop-keeps :
      (packs : List Pack) (ids : List (List ℕ)) (m : List (List ℕ × Pack)) (k : List ℕ) {p : Pack}
      → find k m ≡ some p
      → (q : Pack) × (find k (request_loop uuid_string packs ids m).1 ≡ some q)
  request_loop-keeps packs [] m k {p = p} h = (p, h)
  request_loop-keeps packs (id ∷ ids) m k {p = p} h =
      elim (Option-cases (find_pack uuid_string id packs)) [
        | inl missing ↦ (p, rw (request_loop, missing) h)
        | inr (pack, found) ↦
            let later = put-Some k (uuid_string pack.uuid) pack m h in
            let (q, last) =
              request_loop-keeps packs ids (put (uuid_string pack.uuid) pack m) k later.1 in
            (q, rw (request_loop, found) last)
      ]

  request_loop-found :
      (packs : List Pack) (id : List ℕ) (ids : List (List ℕ)) (m : List (List ℕ × Pack))
      {pack : Pack}
      → find_pack uuid_string id packs ≡ some pack
      → request_loop uuid_string packs (id ∷ ids) m
        ≡ request_loop uuid_string packs ids (put (uuid_string pack.uuid) pack m)
  request_loop-found packs id ids m found = rw (request_loop, found) refl

  request_loop-Waits :
      (packs : List Pack) (ids : List (List ℕ)) (m : List (List ℕ × Pack))
      → (request_loop uuid_string packs ids m).0 ≡ ok tt
      → All (Waits uuid_string packs (request_loop uuid_string packs ids m).1) ids
  request_loop-Waits packs [] m e = tt
  request_loop-Waits packs (id ∷ ids) m e = elim (Option-cases (find_pack uuid_string id packs)) [
    | inl missing ↦ cc (rw (request_loop, missing) at e)
    | inr (pack, found) ↦
        let (sent, named) = find_pack-some id packs found in
        let (q, last) =
          request_loop-keeps packs ids (put (uuid_string pack.uuid) pack m) (uuid_string pack.uuid)
            (find-put (uuid_string pack.uuid) pack m) in
        subst (λ r. All (Waits uuid_string packs r.1) (id ∷ ids))
          (sym (request_loop-found packs id ids m found))
          (
            (pack, q, sent, named, last),
            request_loop-Waits packs ids (put (uuid_string pack.uuid) pack m)
                (rw (request_loop, found) at e),
          )
  ]

  request_loop-Requested :
      (packs : List Pack) (all_ids ids : List (List ℕ)) (m : List (List ℕ × Pack))
      → ((id : List ℕ) → Member id ids → Member id all_ids)
      → All (Requested uuid_string packs all_ids) m
      → All (Requested uuid_string packs all_ids) (request_loop uuid_string packs ids m).1
  request_loop-Requested packs all_ids [] m sub all = all
  request_loop-Requested packs all_ids (id ∷ ids) m sub all =
      elim (Option-cases (find_pack uuid_string id packs)) [
        | inl missing ↦ rw (request_loop, missing) all
        | inr (pack, found) ↦
            let (sent, named) = find_pack-some id packs found in
            rw (request_loop, found)
              (request_loop-Requested packs all_ids ids (put (uuid_string pack.uuid) pack m)
                (λ j j_in. sub j (Member.there j_in))
                (put-All (Requested uuid_string packs all_ids) (uuid_string pack.uuid) pack m
                  (id, refl, sent, sub id Member.here, named) all))
      ]

-- For packs with UUIDs written without an underscore, Request succeeds exactly where each request
-- is the UUID of a pack of the queue, alone, with an underscore behind it, or with an underscore
-- and that pack's version; then for each request a pack waits to be sent, under the UUID of a pack
-- that the request names in this way; and whatever Request returns, each waiting pack is of the
-- queue, under its UUID, and named so by one of the requests.
pub request-Answered :
    (uuid_string : List ℕ → List ℕ) (ids : List (List ℕ)) (queue : ResourcePackQueue)
    → All (λ p. Plain (uuid_string p.uuid)) queue.packs
    → (((request uuid_string ids queue).0 ≡ ok tt) ↔ All (Offered uuid_string queue.packs) ids)
      × ((request uuid_string ids queue).0 ≡ ok tt
          → All
              (Waits uuid_string queue.packs (request uuid_string ids queue).1.packs_to_download)
              ids)
      × All
          (Requested uuid_string queue.packs ids)
          (request uuid_string ids queue).1.packs_to_download
unfolding request
request-Answered uuid_string ids queue plain = (
  request_loop-Offered uuid_string queue.packs ids [] plain,
  request_loop-Waits uuid_string queue.packs ids [],
  request_loop-Requested uuid_string queue.packs ids ids [] (λ id m. m) tt,
)
