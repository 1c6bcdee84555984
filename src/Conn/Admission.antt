-- ===== src/Conn/Admission.antt =====
-- `handleLogin` and `handleClientToServerHandshake` of minecraft/conn.go, and the stages of a login.
use gophertunnel.Prelude.{
  ℕ, Bool, true, false, ◌&&◌, ◌||◌, not, Option, none, some, List, [], ◌∷◌, ◌≡◌, inl, inr, refl, ap,
  sym, Member, Bool-cases, ◌==◌, ==_iff,
}
use mathlib.Core.Path.{subst}
use gophertunnel.Faults.{not_authenticated, bad_public_key}
use gophertunnel.Packet.Login.{Login}
use gophertunnel.Conn.Messages.{Frame, carries, login}
use gophertunnel.Conn.State.{
  Env, Conn, AuthResult, Done, raise, ◌>>=◌, ◌>>◌, modify, ignore, when, expect,
}
use gophertunnel.Conn.Server.{
  announce_packs, enable_packet_encryption, protect, admit, handle_login, legacy_login,
  handle_client_to_server_handshake, enable_encryption, use_key, send_token, let_in, admit_parsed,
  write_disconnect, one_of, select_protocol, refuse_protocol,
}
use gophertunnel.Conn.Stages.{
  Accepted, Admitted, Before, After, Stage, before, handshaking, after, After-Same, After-expects,
  Before-Same,
}
use gophertunnel.Conn.Early.{login_quiet}
use gophertunnel.Conn.Late.{AllOf, announce_packs-Keeps}
use gophertunnel.Conn.Logic.{
  Keeps, Triple, IsQuiet, Keeps->>=, Keeps-ignore, Keeps→Triple, Triple->>=, Triple-if,
  triple_weaken, Triple-raise, Keeps-write_packet, Keeps-flush, Keeps-close, Keeps-try_write,
}

passed : (a b : Bool) → (not a && b) ≡ false → (a || not b) ≡ true
passed true b h = refl
passed false true h = cc
passed false false h = refl

held : (a : Bool) → not a ≡ false → a ≡ true
held true h = refl
held false h = cc

one_of-Member : (n : ℕ) (ids : List ℕ) → one_of n ids ≡ true → Member n ids
one_of-Member n [] h = cc
one_of-Member n (m ∷ ids) h = elim (Bool-cases (m == n)) [
  | inl same ↦ subst (λ (k : ℕ). Member k (m ∷ ids)) ((==_iff m n).0 same) Member.here
  | inr other ↦ Member.there (one_of-Member n ids (rw other at h))
]

module _ (env : Env) (legacy : Bool) (frames : List Frame) where
  abbrev pub S : Conn → Type 0
  S = Stage env legacy frames

  abbrev B : Conn → Type 0
  B = Before legacy

  pub handshake-After :
      Triple
        (Admitted env legacy frames)
        (handle_client_to_server_handshake env)
        (After env legacy frames)
  unfolding handle_client_to_server_handshake modify expect
  handshake-After =
      Triple->>= _ (λ s. (s.authenticated ≡ true) × Admitted env legacy frames s) _ _ _
        (λ s p. (refl, p))
        λ _.
          Triple->>= _ (After env legacy frames) _ _ _ (λ s p. (p.0, p.1, (refl, (refl, tt))))
            λ _. Keeps→Triple (After env legacy frames) (announce_packs env) (
              announce_packs-Keeps env (After env legacy frames) (After-Same env legacy frames)
                (After-expects env legacy frames))

  module _ (pk : Login) (auth : AuthResult) (arrived : Member (carries (login pk)) frames)
      (accepted : Accepted env legacy pk auth) where
    -- The Conn while it turns its encryption on.
    Turning : Conn → Type 0
    Turning s = (s.authenticated ≡ false) × (s.logged_in ≡ false) × AllOf (4 ∷ []) s.expected_ids

    Turning-quiet : IsQuiet Turning
    unfolding Turning
    Turning-quiet = record {
      writes = λ s pks p. p;
      sends = λ s batches p. p;
      closes = λ s p. p;
      queues = λ s queue p. p;
    }

    send_token-Turning : (jwt : Option (List ℕ)) → Keeps Turning (send_token jwt)
    send_token-Turning none = λ s p. p
    send_token-Turning (some jwt) =
        Keeps->>= Turning _ _ (Keeps-write_packet Turning Turning-quiet _)
          λ _. Keeps-ignore Turning _ (Keeps-flush Turning Turning-quiet)

    use_key-Stage :
        (o : Option (List ℕ))
        → env.encryption_key auth.public_key ≡ o
        → Triple Turning (use_key o) S
    unfolding Turning enable_packet_encryption modify
    use_key-Stage none e = λ s p. tt
    use_key-Stage (some key) e =
        λ s p. handshaking (p.0, p.1, (pk, auth, arrived, accepted, inr (key, e, refl, refl)), p.2)

    enable_encryption-Stage : Triple Turning (enable_encryption env auth.public_key) S
    unfolding enable_encryption
    enable_encryption-Stage =
        Triple->>= Turning Turning S _ _
          (Keeps→Triple Turning _ (send_token-Turning env.server_jwt))
          λ _. use_key-Stage (env.encryption_key auth.public_key) refl

    protect-Stage : Triple B (protect env auth.public_key) S
    unfolding protect expect Turning
    protect-Stage =
        Triple-if B S env.disable_encryption (handle_client_to_server_handshake env)
          (expect (4 ∷ []) >> enable_encryption env auth.public_key)
          (λ off.
            triple_weaken B (After env legacy frames) S _ (λ u q. after q)
              λ s p. handshake-After s (pk, auth, arrived, accepted, inl off))
          (λ on.
            Triple->>= B Turning S (expect (4 ∷ [])) _ (λ s p. (p.0, p.1, (refl, tt)))
              λ _. enable_encryption-Stage)

  Before-quiet : IsQuiet B
  Before-quiet = login_quiet B (Before-Same legacy)

  write_disconnect-Before :
      (reason : ℕ) (message : List ℕ) → Keeps B (write_disconnect reason message)
  write_disconnect-Before reason message = Keeps-try_write B Before-quiet _

  let_in-Stage :
      (pk : Login) (auth : AuthResult)
      → Member (carries (login pk)) frames
      → (legacy ≡ true → Member pk.client_protocol env.accepted_proto)
      → (env.parse_login pk.connection_request).1 ≡ some auth
      → (auth.xbox_live_authenticated || not env.auth_enabled) ≡ true
      → env.verify_public_key auth.public_key ≡ true
      → (o : Option (List ℕ)) → env.allow (env.parse_login pk.connection_request).0 ≡ o
      → Triple B (let_in env auth o) S
  let_in-Stage pk auth arrived agreed parsed signed_in key_verified none allowed =
      protect-Stage pk auth arrived (record {
        protocol = agreed;
        parsed = parsed;
        signed_in = signed_in;
        key_verified = key_verified;
        allowed = allowed;
      })
  let_in-Stage pk auth arrived agreed parsed signed_in key_verified (some reason) refused =
      triple_weaken B B S _ (λ u q. before q)
        (Keeps→Triple B _
          (Keeps->>= B _ _ (write_disconnect-Before _ _) λ _. Keeps-close B Before-quiet))

  -- The login request is checked in the order of the code.
  admit-Stage :
      (pk : Login) (auth : AuthResult)
      → Member (carries (login pk)) frames
      → (legacy ≡ true → Member pk.client_protocol env.accepted_proto)
      → (env.parse_login pk.connection_request).1 ≡ some auth
      → Triple
          (λ s. B s × (s.identity_data ≡ (env.parse_login pk.connection_request).0))
          (admit env auth)
          S
  unfolding admit ◌>>=◌
  admit-Stage pk auth arrived agreed parsed =
      Triple-if _ S (not auth.xbox_live_authenticated && env.auth_enabled)
        (write_disconnect 0 env.not_authenticated_message >> raise not_authenticated) _
        (λ bad.
          Triple-raise _ Done S (write_disconnect 0 env.not_authenticated_message)
            not_authenticated)
        (λ good.
          Triple-if _ S (not (env.verify_public_key auth.public_key))
            (write_disconnect 46 [] >> raise bad_public_key) _
            (λ bad. Triple-raise _ Done S (write_disconnect 46 []) bad_public_key)
            (λ verified s p.
              let_in-Stage pk auth arrived agreed parsed
                (passed auth.xbox_live_authenticated env.auth_enabled good)
                (held (env.verify_public_key auth.public_key) verified) (env.allow s.identity_data)
                (ap env.allow (sym p.1)) s p.0))

  admit_parsed-Stage :
      (pk : Login) (o : Option AuthResult)
      → Member (carries (login pk)) frames
      → (legacy ≡ true → Member pk.client_protocol env.accepted_proto)
      → (env.parse_login pk.connection_request).1 ≡ o
      → Triple
          (λ s. B s × (s.identity_data ≡ (env.parse_login pk.connection_request).0))
          (admit_parsed env o)
          S
  admit_parsed-Stage pk none arrived agreed parsed = λ s p. tt
  admit_parsed-Stage pk (some auth) arrived agreed parsed =
      admit-Stage pk auth arrived agreed parsed

  -- The start of a login without network settings lets only an accepted protocol through.
  legacy_login-Agreed :
      (pk : Login)
      → Triple B (legacy_login env pk) (λ s. B s × Member pk.client_protocol env.accepted_proto)
  unfolding legacy_login select_protocol refuse_protocol ◌>>=◌ modify ignore
  legacy_login-Agreed pk s p = elim (Bool-cases (one_of pk.client_protocol env.accepted_proto)) [
    | inl holds ↦ rw holds (p, one_of-Member pk.client_protocol env.accepted_proto holds)
    | inr fails ↦ rw fails tt
  ]

  when_legacy-Agreed :
      (pk : Login) (old : Bool)
      → old ≡ legacy
      → Triple B
          (when old (legacy_login env pk))
          (λ s. B s × (legacy ≡ true → Member pk.client_protocol env.accepted_proto))
  when_legacy-Agreed pk true e =
      triple_weaken B (λ s. B s × Member pk.client_protocol env.accepted_proto)
        (λ s. B s × (legacy ≡ true → Member pk.client_protocol env.accepted_proto)) _
        (λ u q. (q.0, λ on. q.1)) (legacy_login-Agreed pk)
  when_legacy-Agreed pk false e = λ s p. (p, λ on. absurd (cc (e, on)))

  pub handle_login-Stage :
      (pk : Login) → Member (carries (login pk)) frames → Triple B (handle_login env pk) S
  unfolding handle_login modify ◌>>=◌
  handle_login-Stage pk arrived s p =
      Triple->>= B (λ t. B t × (legacy ≡ true → Member pk.client_protocol env.accepted_proto)) S
        (when s.legacy_network_settings (legacy_login env pk)) _
        (when_legacy-Agreed pk s.legacy_network_settings p.2)
        (λ _ t q.
          admit_parsed-Stage pk (env.parse_login pk.connection_request).1 arrived q.1 refl
            (record t { identity_data = (env.parse_login pk.connection_request).0 }) (q.0, refl))
        s p
