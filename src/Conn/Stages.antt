-- ===== src/Conn/Stages.antt =====
-- How far the login of a listener's Conn has come, by what was checked and what is expected.
use gophertunnel.Prelude.{
  ℕ, Bool, true, false, ◌||◌, not, none, some, List, [], ◌∷◌, ◌≡◌, ◌⊎◌, inl, inr, refl, sym, ◌∙◌,
  Member,
}
use mathlib.Core.Path.{subst}
use gophertunnel.Packet.Login.{Login}
use gophertunnel.Conn.Messages.{Frame, carries, login}
use gophertunnel.Conn.State.{Env, Conn, AuthResult, expect}
use gophertunnel.Conn.Late.{AllOf, late, Same}
use gophertunnel.Conn.Logic.{Keeps}

-- A login request that passed every check, on a connection with or without network settings of the
-- old kind.
pub record Accepted (env : Env) (legacy : Bool) (pk : Login) (auth : AuthResult) : Type 0 where
  pub protocol : legacy ≡ true → Member pk.client_protocol env.accepted_proto
  pub parsed : (env.parse_login pk.connection_request).1 ≡ some auth
  pub signed_in : (auth.xbox_live_authenticated || not env.auth_enabled) ≡ true
  pub key_verified : env.verify_public_key auth.public_key ≡ true
  pub allowed : env.allow (env.parse_login pk.connection_request).0 ≡ none

-- Encrypted both ways under the key made from the player's public key, or encryption is disabled.
abbrev pub Protected : Env → AuthResult → Conn → Type 0
Protected env auth s =
    (env.disable_encryption ≡ true)
    ⊎ ((key : List ℕ) × (env.encryption_key auth.public_key ≡ some key)
        × (s.enc.key ≡ some key)
        × (s.dec.key ≡ some key))

-- One of the packets that arrived is a login request that was accepted.
abbrev pub Admitted : Env → Bool → List Frame → Conn → Type 0
Admitted env legacy frames s =
    (pk : Login) × (auth : AuthResult) × Member (carries (login pk)) frames
    × Accepted env legacy pk auth
    × Protected env auth s

abbrev pub early : List ℕ
early = 193 ∷ 1 ∷ []

-- The three stages of the login of a listener's Conn.
abbrev pub Before : Bool → Conn → Type 0
Before legacy s =
    (s.authenticated ≡ false)
    × (s.logged_in ≡ false)
    × (s.legacy_network_settings ≡ legacy)
    × AllOf early s.expected_ids

abbrev pub Handshaking : Env → Bool → List Frame → Conn → Type 0
Handshaking env legacy frames s =
    (s.authenticated ≡ false)
    × (s.logged_in ≡ false)
    × Admitted env legacy frames s
    × AllOf (4 ∷ []) s.expected_ids

abbrev pub After : Env → Bool → List Frame → Conn → Type 0
After env legacy frames s =
    (s.authenticated ≡ true) × Admitted env legacy frames s × AllOf late s.expected_ids

pub data Stage (env : Env) (legacy : Bool) (frames : List Frame) (s : Conn) : Type 0 where
  before : Before legacy s → Stage env legacy frames s
  handshaking : Handshaking env legacy frames s → Stage env legacy frames s
  after : After env legacy frames s → Stage env legacy frames s

module _ (env : Env) (legacy : Bool) (frames : List Frame) where
  Protected-Same :
      (auth : AuthResult) (s t : Conn) → Same s t → Protected env auth s → Protected env auth t
  Protected-Same auth s t same (inl off) = inl off
  Protected-Same auth s t (a, e, enc, dec, leg) (inr (key, derived, k, k')) =
      inr (key, derived, enc ∙ k, dec ∙ k')

  pub After-Same : (s t : Conn) → Same s t → After env legacy frames s → After env legacy frames t
  After-Same s t same (yes', (pk, auth, m, acc, prot), ids) = (
    same.0 ∙ yes',
    (pk, auth, m, acc, Protected-Same auth s t same prot),
    subst (AllOf late) (sym same.1) ids,
  )

  pub After-expects : (ids : List ℕ) → AllOf late ids → Keeps (After env legacy frames) (expect ids)
  unfolding expect
  After-expects ids all s (yes', admitted, old) = (yes', admitted, all)

  pub Stage-Same :
      (s t : Conn)
      → Same s t
      → t.logged_in ≡ s.logged_in
      → Stage env legacy frames s
      → Stage env legacy frames t
  Stage-Same s t same out (before (no', off, kind, ids)) =
      before (same.0 ∙ no', out ∙ off, same.4 ∙ kind, subst (AllOf early) (sym same.1) ids)
  Stage-Same s t same out (handshaking (no', off, (pk, auth, m, acc, prot), ids)) = handshaking (
    same.0 ∙ no',
    out ∙ off,
    (pk, auth, m, acc, Protected-Same auth s t same prot),
    subst (AllOf (4 ∷ [])) (sym same.1) ids,
  )
  Stage-Same s t same out (after p) = after (After-Same s t same p)

pub Before-Same :
    (legacy : Bool) (s t : Conn)
    → Same s t
    → t.logged_in ≡ s.logged_in
    → Before legacy s
    → Before legacy t
Before-Same legacy s t same out (no', off, kind, ids) =
    (same.0 ∙ no', out ∙ off, same.4 ∙ kind, subst (AllOf early) (sym same.1) ids)

pub Before-expects : (legacy : Bool) → Keeps (Before legacy) (expect (1 ∷ []))
unfolding expect
Before-expects legacy s (no', off, kind, ids) = (no', off, kind, (refl, tt))
