-- ===== src/Conn/Session.antt =====
-- Runs of a listener's Conn (minecraft/conn.go, minecraft/listener.go) and the stages of its login.
use gophertunnel.Prelude.{
  ℕ, zero, suc, Bool, true, false, Option, none, some, List, [], ◌∷◌, ◌≡◌, inl, inr, refl, sym,
  ◌==◌, ==_iff, length, Member, Member-cons, Bool-cases,
}
use mathlib.Core.Path.{subst}
use gophertunnel.Faults.{Fault, undecodable}
use gophertunnel.Packs.{Pack}
use gophertunnel.Prelude.Results.{Result, ok, err}
use gophertunnel.Conn.Messages
use gophertunnel.Conn.Messages.{
  Message, Frame, GameData, ResourcePackClientResponse, pack_response_refused,
  pack_response_send_packs, pack_response_all_packs_downloaded, pack_response_completed, carries,
  broken, frame_id, login, id,
}
use gophertunnel.Conn.State.{
  Env, Conn, Action, Done, pure, ◌>>=◌, ◌>>◌, modify, ignore, when, flush, close,
}
use gophertunnel.Conn.Server.{one_of, start_game_context}
use gophertunnel.Conn.Stages.{
  Admitted, early, After, Stage, before, handshaking, after, After-Same, After-expects, Stage-Same,
}
use gophertunnel.Conn.Early.{login_quiet}
use gophertunnel.Conn.Events.{
  Event, new_listener_conn, arrives, starts_game, writes, flushes, reads, closes, step, run,
  arrived,
}
use gophertunnel.Conn.Dispatch.{dispatch-Before, dispatch-Handshaking, dispatch-After}
use gophertunnel.Conn.Receive.{
  deliver, wait_packet, take_from, read_next, read_loop, read_packet, take_deferred_packet,
  dispatch, handle_packet, decode_frame, defer_packet, handle, receive_packet, receive,
}
use gophertunnel.Conn.Late.{AllOf, late, Same, start_game_context-Keeps}
use gophertunnel.Conn.Logic.{
  Keeps, OnOk, Triple, IsQuiet, Keeps->>=, Keeps-ignore, Keeps-if, Keeps-modify, Keeps→Triple,
  Triple->>=, Triple-if, Triple-raise, Keeps-flush, Keeps-close, Keeps-try_write, keeps_either,
}

one_of-AllOf :
    (n : ℕ) (ids allowed : List ℕ)
    → AllOf allowed ids
    → one_of n ids ≡ true
    → one_of n allowed ≡ true
one_of-AllOf n [] allowed all h = cc
one_of-AllOf n (m ∷ ids) allowed (first, all) h = elim (Bool-cases (m == n)) [
  | inl same ↦ subst (λ (k : ℕ). one_of k allowed ≡ true) ((==_iff m n).0 same) first
  | inr other ↦ one_of-AllOf n ids allowed all (rw other at h)
]

arrived-first :
    (e : Event) (es : List Event) (f : Frame)
    → Member f (arrived (e ∷ []))
    → Member f (arrived (e ∷ es))
arrived-first (arrives g) es f m = elim (Member-cons [] m) [
  | inl same ↦ subst (λ h. Member f (h ∷ arrived es)) same Member.here
  | inr none' ↦ elim none' [ ]
]
arrived-first (starts_game data') es f m = elim m [ ]
arrived-first (writes pk) es f m = elim m [ ]
arrived-first flushes es f m = elim m [ ]
arrived-first reads es f m = elim m [ ]
arrived-first closes es f m = elim m [ ]

arrived-rest :
    (e : Event) (es : List Event) (f : Frame) → Member f (arrived es) → Member f (arrived (e ∷ es))
arrived-rest (arrives g) es f m = Member.there m
arrived-rest (starts_game data') es f m = m
arrived-rest (writes pk) es f m = m
arrived-rest flushes es f m = m
arrived-rest reads es f m = m
arrived-rest closes es f m = m

module _ (env : Env) (legacy : Bool) (frames : List Frame) where
  abbrev S : Conn → Type 0
  S = Stage env legacy frames

  S_quiet : IsQuiet S
  S_quiet = login_quiet S (Stage-Same env legacy frames)

  S_modify :
      (f : Conn → Conn)
      → ((s : Conn) → Same s (f s))
      → ((s : Conn) → (f s).logged_in ≡ s.logged_in)
      → Keeps S (modify f)
  S_modify f h g = Keeps-modify S f λ s p. Stage-Same env legacy frames s (f s) (h s) (g s) p

  -- An expected packet is handled at its stage.
  dispatch-Stage :
      (m : Message)
      → Member (carries m) frames
      → (s : Conn) → S s
      → one_of (id m) s.expected_ids ≡ true
      → OnOk S (dispatch env m s).0 (dispatch env m s).1
  dispatch-Stage m sent_in s (before p) h =
      dispatch-Before env legacy frames m sent_in (one_of-AllOf (id m) s.expected_ids early p.3 h) s
        p
  dispatch-Stage m sent_in s (handshaking p) h =
      dispatch-Handshaking env legacy frames m sent_in
        (one_of-AllOf (id m) s.expected_ids (4 ∷ []) p.3 h) s p
  dispatch-Stage m sent_in s (after p) h =
      dispatch-After env legacy frames m sent_in (one_of-AllOf (id m) s.expected_ids late p.2 h) s p

  flushed : (r : Result Fault Done) (t : Conn) → OnOk S r t → OnOk S r (ignore flush t).1
  flushed (ok a) t p = Keeps-ignore S flush (Keeps-flush S S_quiet) t p
  flushed (err e) t p = tt

  handle_packet-Stage :
      (m : Message)
      → Member (carries m) frames
      → (s : Conn) → S s
      → one_of (id m) s.expected_ids ≡ true
      → OnOk S (handle_packet env m s).0 (handle_packet env m s).1
  unfolding handle_packet
  handle_packet-Stage m sent_in s p h =
      flushed (dispatch env m s).0 (dispatch env m s).1 (dispatch-Stage m sent_in s p h)

  defer_packet-Stage : (f : Frame) → Keeps S (defer_packet f)
  unfolding defer_packet
  defer_packet-Stage f = S_modify _ (λ s. (refl, refl, refl, refl, refl)) (λ s. refl)

  close-Stage : Keeps S close
  close-Stage = Keeps-close S S_quiet

  decode_frame-Stage : (f : Frame) → Keeps S (decode_frame f)
  unfolding decode_frame
  decode_frame-Stage (carries m) = λ s p. p
  decode_frame-Stage (broken packet_id shut) =
      Keeps->>= S _ _ (Keeps-if S shut close (pure tt) close-Stage (λ s p. p)) λ _ s p. p
  decode_frame-Stage Messages.malformed = λ s p. p

  handle_decoded :
      (f : Frame)
      → Member f frames
      → (s : Conn) → S s
      → one_of (frame_id f) s.expected_ids ≡ true
      → OnOk S
          ((decode_frame f >>= handle_packet env) s).0
          ((decode_frame f >>= handle_packet env) s).1
  unfolding decode_frame ◌>>=◌
  handle_decoded (carries m) sent_in s p h = handle_packet-Stage m sent_in s p h
  handle_decoded (broken packet_id shut) sent_in s p h =
      Triple->>= S (λ _. true ≡ false) S _ (handle_packet env)
        (Triple-raise S Message (λ _. true ≡ false) (when shut close) undecodable)
        (λ m u r. absurd (cc r)) s p
  handle_decoded Messages.malformed sent_in s p h = tt

  handle-Stage : (f : Frame) → Member f frames → Triple S (handle env f) S
  unfolding handle ◌>>=◌
  handle-Stage f sent_in s p =
      Triple-if (λ t. S t × (t.expected_ids ≡ s.expected_ids)) S
        (one_of (frame_id f) s.expected_ids) _ (defer_packet f)
        (λ expected t q.
          handle_decoded f sent_in t q.0
            (subst (λ ids. one_of (frame_id f) ids ≡ true) (sym q.1) expected))
        (λ other t q. Keeps→Triple S (defer_packet f) (defer_packet-Stage f) t q.0) s (p, refl)

  receive_packet-Stage : (f : Frame) → Member f frames → Triple S (receive_packet env f) S
  unfolding receive_packet
  receive_packet-Stage f sent_in =
      Triple-if S S (frame_id f == 5) (decode_frame f >> close) _
        (λ gone. Keeps→Triple S _ (Keeps->>= S _ _ (decode_frame-Stage f) λ _. close-Stage))
        (λ stays.
          Triple->>= S S S _ _ (λ s p. p)
            λ deferring.
              Triple-if S S deferring (defer_packet f) (handle env f)
                (λ yes'. Keeps→Triple S _ (defer_packet-Stage f)) (λ no'. handle-Stage f sent_in))

  receive-Stage : (f : Frame) → Member f frames → Triple S (receive env f) S
  unfolding receive
  receive-Stage (carries m) sent_in = receive_packet-Stage (carries m) sent_in
  receive-Stage (broken packet_id shut) sent_in =
      receive_packet-Stage (broken packet_id shut) sent_in
  receive-Stage Messages.malformed sent_in = λ s p. tt

  take_from-Stage : (fs : List Frame) → Keeps S (take_from fs)
  take_from-Stage [] = λ s p. p
  take_from-Stage (f ∷ fs) =
      λ s p. Stage-Same env legacy frames s _ (refl, refl, refl, refl, refl) refl p

  wait_packet-Stage : Keeps S wait_packet
  wait_packet-Stage s p = keeps_either S S_quiet s.closed _ _ p p

  deliver-Stage : (f : Frame) (next : Action Message) → Keeps S next → Keeps S (deliver f next)
  deliver-Stage (carries m) next h = λ s p. p
  deliver-Stage (broken packet_id shut) next h =
      Keeps->>= S _ _ (Keeps-if S shut close (pure tt) close-Stage (λ s p. p)) λ _. h
  deliver-Stage Messages.malformed next h = h

  read_next-Stage :
      (o : Option Frame) (next : Action Message) → Keeps S next → Keeps S (read_next o next)
  read_next-Stage none next h = wait_packet-Stage
  read_next-Stage (some f) next h = deliver-Stage f next h

  read_loop-Stage : (n : ℕ) → Keeps S (read_loop n)
  unfolding take_deferred_packet
  read_loop-Stage zero = wait_packet-Stage
  read_loop-Stage (suc n) =
      Keeps->>= S take_deferred_packet _ (λ s p. take_from-Stage s.deferred_packets s p)
        λ o. read_next-Stage o (read_loop n) (read_loop-Stage n)

  read_packet-Stage : Keeps S read_packet
  unfolding read_packet
  read_packet-Stage s p = read_loop-Stage (length s.deferred_packets) s p

  -- The user has the Conn only once it is logged in, and then it is past its login.
  start-Stage : (data' : GameData) → Keeps S (step env (starts_game data'))
  unfolding step ◌>>=◌
  start-Stage data' s (before p) =
      subst (λ c. S (when c (start_game_context data') s).1) (sym p.1) (before p)
  start-Stage data' s (handshaking p) =
      subst (λ c. S (when c (start_game_context data') s).1) (sym p.1) (handshaking p)
  start-Stage data' s (after p) = after (
      Keeps-if (After env legacy frames) s.logged_in (start_game_context data') (pure tt)
        (start_game_context-Keeps env (After env legacy frames) (After-Same env legacy frames)
          (After-expects env legacy frames) data')
        (λ t q. q) s p)

  step-Stage :
      (e : Event)
      → ((f : Frame) → Member f (arrived (e ∷ [])) → Member f frames)
      → Triple S (step env e) S
  unfolding step
  step-Stage (arrives f) sub = receive-Stage f (sub f Member.here)
  step-Stage (starts_game data') sub =
      Keeps→Triple S (step env (starts_game data')) (start-Stage data')
  step-Stage (writes pk) sub = Keeps→Triple S _ (Keeps-try_write S S_quiet pk)
  step-Stage flushes sub = Keeps→Triple S _ (Keeps-ignore S flush (Keeps-flush S S_quiet))
  step-Stage reads sub = Keeps→Triple S _ (Keeps-ignore S read_packet read_packet-Stage)
  step-Stage closes sub = Keeps→Triple S _ close-Stage

  run-Stage :
      (es : List Event)
      → ((f : Frame) → Member f (arrived es) → Member f frames)
      → Triple S (run env es) S
  run-Stage [] sub = λ s p. p
  run-Stage (e ∷ es) sub =
      Triple->>= S S S _ _ (step-Stage e (λ f m. sub f (arrived-first e es f m)))
        λ _. run-Stage es (λ f m. sub f (arrived-rest e es f m))

-- What a stage says of an authenticated Conn and of one that is logged in.
Stage-authenticated :
    {env : Env} {legacy : Bool} {frames : List Frame} {s : Conn}
    → Stage env legacy frames s
    → s.authenticated ≡ true
    → Admitted env legacy frames s
Stage-authenticated (before p) h = cc (h, p.0)
Stage-authenticated (handshaking p) h = cc (h, p.0)
Stage-authenticated (after p) h = p.1

Stage-logged_in :
    {env : Env} {legacy : Bool} {frames : List Frame} {s : Conn}
    → Stage env legacy frames s
    → s.logged_in ≡ true
    → s.authenticated ≡ true
Stage-logged_in (before p) h = cc (h, p.1)
Stage-logged_in (handshaking p) h = cc (h, p.1)
Stage-logged_in (after p) h = p.0

-- In every run of a new listener's Conn that has met no error, a Conn that is logged in is
-- authenticated, and an authenticated Conn has got a login request that parses, is signed in with
-- XBOX Live where that is required, has a public key that the transport verifies, is of a player
-- who is allowed in, and, on a connection with legacy network settings, names an accepted
-- protocol; and the Conn encrypts under that player's key unless encryption is disabled.
pub run-Admitted :
    (env : Env) (compression : ℕ) (packs : List Pack) (world_name : List ℕ) (legacy : Bool)
    (es : List Event) (s : Conn)
    → run env es (new_listener_conn compression packs world_name legacy) ≡ (ok tt, s)
    → (s.logged_in ≡ true → s.authenticated ≡ true)
      × (s.authenticated ≡ true → Admitted env legacy (arrived es) s)
run-Admitted env compression packs world_name legacy es s e =
    let stage : Stage env legacy (arrived es) s =
      subst (λ r. OnOk (Stage env legacy (arrived es)) r.0 r.1) e
        (run-Stage env legacy (arrived es) es (λ f m. m)
          (new_listener_conn compression packs world_name legacy)
          (before (refl, refl, refl, (refl, (refl, tt))))) in
    (Stage-logged_in stage, Stage-authenticated stage)
