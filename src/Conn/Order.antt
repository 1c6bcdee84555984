-- ===== src/Conn/Order.antt =====
-- The deferred packets of a Conn (minecraft/conn.go).
use gophertunnel.Prelude.{
  ℕ, zero, suc, true, false, List, [], ◌∷◌, ◌++◌, map, append_assoc, append-nil, ◌≡◌, refl, All,
  length, ◌==◌,
}
use gophertunnel.Prelude.Results.{ok}
use gophertunnel.Conn.Messages.{Message, Frame, carries, id}
use gophertunnel.Conn.State.{Env, Conn, Action, Done, pure, ◌>>=◌, ◌>>◌, modify}
use gophertunnel.Conn.Receive.{
  defer_packet, receive_packet, receive, take_deferred_packet, read_packet,
}

-- Packets that arrive one after another, and as many calls of `ReadPacket`.
abbrev pub receive_all : Env → List Message → Action Done
receive_all env [] = pure tt
receive_all env (m ∷ ms) = receive env (carries m) >> receive_all env ms

abbrev pub read_all : ℕ → Action (List Message)
read_all zero = pure []
read_all (suc n) = read_packet >>= λ m. read_all n >>= λ ms. pure (m ∷ ms)

abbrev with_deferred : Conn → List Frame → Conn
with_deferred s fs = record s { deferred_packets = fs }

receive-defers :
    (env : Env) (m : Message) (s : Conn) (fs : List Frame)
    → s.logged_in ≡ true
    → s.waiting_for_spawn ≡ false
    → (id m == 5) ≡ false
    → receive env (carries m) (with_deferred s fs) ≡ (ok tt, with_deferred s (fs ++ carries m ∷ []))
unfolding receive receive_packet ◌>>=◌ defer_packet modify
receive-defers env m s fs on spawned other = rw (other, on, spawned) refl

receive_all-defers :
    (env : Env) (ms : List Message) (s : Conn) (fs : List Frame)
    → s.logged_in ≡ true
    → s.waiting_for_spawn ≡ false
    → All (λ m. (id m == 5) ≡ false) ms
    → receive_all env ms (with_deferred s fs) ≡ (ok tt, with_deferred s (fs ++ map carries ms))
unfolding ◌>>=◌
receive_all-defers env [] s fs on spawned all = rw (append-nil fs) refl
receive_all-defers env (m ∷ ms) s fs on spawned (other, all) =
    rw
      (
        receive-defers env m s fs on spawned other,
        receive_all-defers env ms s (fs ++ carries m ∷ []) on spawned all,
        append_assoc fs (carries m ∷ []) (map carries ms),
      )
      refl

read_packet-first :
    (m : Message) (s : Conn) (fs : List Frame)
    → read_packet (with_deferred s (carries m ∷ fs)) ≡ (ok m, with_deferred s fs)
unfolding read_packet take_deferred_packet ◌>>=◌
read_packet-first m s fs = refl

read_all-deferred :
    (ms : List Message) (s : Conn)
    → read_all (length ms) (with_deferred s (map carries ms)) ≡ (ok ms, with_deferred s [])
unfolding ◌>>=◌
read_all-deferred [] s = refl
read_all-deferred (m ∷ ms) s =
    rw (read_packet-first m s (map carries ms), read_all-deferred ms s) refl

-- On a Conn that has spawned, with no packet deferred, packets that arrive, none of them a
-- Disconnect, go to the user and to no handler: as many calls of ReadPacket return them, all and
-- in the order of their arrival, and leave the Conn as it was.
pub read_all-receive_all :
    (env : Env) (ms : List Message) (s : Conn)
    → s.logged_in ≡ true
    → s.waiting_for_spawn ≡ false
    → All (λ m. (id m == 5) ≡ false) ms
    → (receive_all env ms >> read_all (length ms)) (record s { deferred_packets = [] })
      ≡ (ok ms, record s { deferred_packets = [] })
unfolding ◌>>=◌
read_all-receive_all env ms s on spawned all =
    rw (receive_all-defers env ms s [] on spawned all, read_all-deferred ms s) refl
