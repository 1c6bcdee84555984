-- ===== src/Conn/Early.antt =====
-- The handlers of a listener's Conn before the handshake (minecraft/conn.go), and what they leave alone.
use gophertunnel.Prelude.{ℕ, not, [], ◌∷◌, ◌≡◌, refl}
use gophertunnel.Packet.Login.{RequestNetworkSettings}
use gophertunnel.Conn.State.{Env, Conn, modify, expect}
use gophertunnel.Conn.Server.{
  one_of, select_protocol, refuse_protocol, handle_request_network_settings,
}
use gophertunnel.Conn.Late.{Same}
use gophertunnel.Conn.Logic.{
  Keeps, IsQuiet, Keeps->>=, Keeps-ignore, Keeps-if, Keeps-modify, Keeps-write_packet, Keeps-flush,
  Keeps-try_write, keeps_either,
}

abbrev pub login_quiet :
    (P : Conn → Type 0)
    → ((s t : Conn) → Same s t → t.logged_in ≡ s.logged_in → P s → P t)
    → IsQuiet P
login_quiet P same = record {
  writes = λ s pks p. same s _ (refl, refl, refl, refl, refl) refl p;
  sends = λ s batches p. same s _ (refl, refl, refl, refl, refl) refl p;
  closes = λ s p. same s _ (refl, refl, refl, refl, refl) refl p;
  queues = λ s queue p. same s _ (refl, refl, refl, refl, refl) refl p;
}

-- The handlers before the handshake, for any property that depends on no more than the stages do and
-- holds with Login expected.
module _ (env : Env) (P : Conn → Type 0)
    (same : (s t : Conn) → Same s t → t.logged_in ≡ s.logged_in → P s → P t)
    (expects : Keeps P (expect (1 ∷ []))) where
  refuse_protocol-Keeps : (protocol_id : ℕ) → Keeps P (refuse_protocol protocol_id)
  unfolding refuse_protocol
  refuse_protocol-Keeps protocol_id =
      Keeps->>= P _ _ (Keeps-try_write P (login_quiet P same) _) λ _ s p. p

  select_protocol-Keeps : (protocol_id : ℕ) → Keeps P (select_protocol env protocol_id)
  unfolding select_protocol
  select_protocol-Keeps protocol_id s p =
      keeps_either P (login_quiet P same) (one_of protocol_id env.accepted_proto) _ _
        (same s _ (refl, refl, refl, refl, refl) refl p) p

  pub modify-Keeps :
      (f : Conn → Conn)
      → ((s : Conn) → Same s (f s))
      → ((s : Conn) → (f s).logged_in ≡ s.logged_in)
      → Keeps P (modify f)
  modify-Keeps f h g = Keeps-modify P f λ s p. same s (f s) (h s) (g s) p

  pub handle_request_network_settings-Keeps :
      (pk : RequestNetworkSettings) → Keeps P (handle_request_network_settings env pk)
  unfolding handle_request_network_settings
  handle_request_network_settings-Keeps pk =
      Keeps->>= P _ _ (select_protocol-Keeps pk.client_protocol) λ accepted.
        Keeps-if P (not accepted) (refuse_protocol pk.client_protocol) _
          (refuse_protocol-Keeps pk.client_protocol)
          (Keeps->>= P _ _ (modify-Keeps _ (λ s. (refl, refl, refl, refl, refl)) (λ s. refl)) λ _.
            Keeps->>= P _ _ expects λ _.
              Keeps->>= P _ _ (λ s p. p)
                λ c. Keeps->>= P _ _ (Keeps-write_packet P (login_quiet P same) _) λ _.
                  Keeps->>= P _ _ (Keeps-ignore P _ (Keeps-flush P (login_quiet P same)))
                    λ _. modify-Keeps _ (λ s. (refl, refl, refl, refl, refl)) (λ s. refl))
