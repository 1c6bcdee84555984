-- ===== src/Conn/Logic.antt =====
-- How the proofs about handlers go: what an Action keeps whatever its outcome, and what holds where it
-- returns without an error.
use gophertunnel.Prelude.{
  Bool, true, false, List, [], ◌∷◌, ◌++◌, ◌≡◌, refl, length, ◌==◌, if◌then◌else◌, Option, none,
  some,
}
use gophertunnel.Prelude.Results.{Result, ok, err}
use gophertunnel.Faults.{Fault, nil_pointer}
use gophertunnel.Packs.Queue.{ResourcePackQueue}
use gophertunnel.Conn.Packs.{with_queue}
use gophertunnel.Conn.Messages.{Message}
use gophertunnel.Conn.State.{
  Conn, Sent, Action, raise, chain, ◌>>=◌, ◌>>◌, modify, ignore, write_packet, flush, close,
}

abbrev pub Keeps : {A : Type 0} → (Conn → Type 0) → Action A → Type 0
Keeps P m = (s : Conn) → P s → P (m s).1

abbrev pub OnOk : {A : Type 0} → (Conn → Type 0) → Result Fault A → Conn → Type 0
OnOk Q (ok a) s = Q s
OnOk Q (err e) s = Unit

abbrev pub Triple : {A : Type 0} → (Conn → Type 0) → Action A → (Conn → Type 0) → Type 0
Triple P m Q = (s : Conn) → P s → OnOk Q (m s).0 (m s).1

module _ (P : Conn → Type 0) where
  keeps_chain :
      {A B : Type 0} (f : A → Action B) (r : Result Fault A) (t : Conn)
      → P t
      → ((a : A) → Keeps P (f a))
      → P (chain f r t).1
  keeps_chain f (ok a) t p h = h a t p
  keeps_chain f (err e) t p h = p

  pub Keeps->>= :
      {A B : Type 0} (m : Action A) (f : A → Action B)
      → Keeps P m
      → ((a : A) → Keeps P (f a))
      → Keeps P (m >>= f)
  unfolding ◌>>=◌
  Keeps->>= m f hm hf s p = keeps_chain f (m s).0 (m s).1 (hm s p) hf

  pub Keeps-ignore : {A : Type 0} (m : Action A) → Keeps P m → Keeps P (ignore m)
  unfolding ignore
  Keeps-ignore m h s p = h s p

  pub Keeps-if :
      {A : Type 0} (c : Bool) (m n : Action A)
      → Keeps P m
      → Keeps P n
      → Keeps P (if c then m else n)
  Keeps-if true m n h h' s p = h s p
  Keeps-if false m n h h' s p = h' s p

  pub Keeps-modify : (f : Conn → Conn) → ((s : Conn) → P s → P (f s)) → Keeps P (modify f)
  unfolding modify
  Keeps-modify f h s p = h s p

  pub Keeps→Triple : {A : Type 0} (m : Action A) → Keeps P m → Triple P m P
  Keeps→Triple m h s p = weaken (m s).0 (m s).1 (h s p)
    where
      weaken : {A : Type 0} (r : Result Fault A) (t : Conn) → P t → OnOk P r t
      weaken (ok a) t p = p
      weaken (err e) t p = tt

  triple_chain :
      {A B : Type 0} (R Q : Conn → Type 0) (f : A → Action B) (r : Result Fault A) (t : Conn)
      → OnOk R r t
      → ((a : A) → Triple R (f a) Q)
      → OnOk Q (chain f r t).0 (chain f r t).1
  triple_chain R Q f (ok a) t q h = h a t q
  triple_chain R Q f (err e) t q h = tt

  pub Triple->>= :
      {A B : Type 0} (R Q : Conn → Type 0) (m : Action A) (f : A → Action B)
      → Triple P m R
      → ((a : A) → Triple R (f a) Q)
      → Triple P (m >>= f) Q
  unfolding ◌>>=◌
  Triple->>= R Q m f hm hf s p = triple_chain R Q f (m s).0 (m s).1 (hm s p) hf

  ok_weaken :
      {A : Type 0} (Q R : Conn → Type 0) (r : Result Fault A) (t : Conn)
      → ((u : Conn) → Q u → R u)
      → OnOk Q r t
      → OnOk R r t
  ok_weaken Q R (ok a) t w q = w t q
  ok_weaken Q R (err e) t w q = tt

  pub triple_weaken :
      {A : Type 0} (Q R : Conn → Type 0) (m : Action A)
      → ((u : Conn) → Q u → R u)
      → Triple P m Q
      → Triple P m R
  triple_weaken Q R m w h s p = ok_weaken Q R (m s).0 (m s).1 w (h s p)

  ends :
      {A : Type 0} (B : Type 0) (Q : Conn → Type 0) (e : Fault) (r : Result Fault A) (t : Conn)
      → OnOk Q (chain (λ (a : A). raise {A = B} e) r t).0 (chain (λ (a : A). raise {A = B} e) r t).1
  ends B Q e (ok a) t = tt
  ends B Q e (err e') t = tt

  -- After an Action that fails at its end anything holds.
  pub Triple-raise :
      {A : Type 0} (B : Type 0) (Q : Conn → Type 0) (m : Action A) (e : Fault)
      → Triple P (m >> raise {A = B} e) Q
  unfolding ◌>>=◌
  Triple-raise B Q m e s p = ends B Q e (m s).0 (m s).1

  pub Triple-if :
      {A : Type 0} (Q : Conn → Type 0) (c : Bool) (m n : Action A)
      → (c ≡ true → Triple P m Q)
      → (c ≡ false → Triple P n Q)
      → Triple P (if c then m else n) Q
  Triple-if Q true m n h h' s p = h refl s p
  Triple-if Q false m n h h' s p = h' refl s p

-- What does not depend on the queues of packets.
pub record IsQuiet (P : Conn → Type 0) : Type 1 where
  pub writes : (s : Conn) (pks : List Message) → P s → P (record s { buffered_send = pks })
  pub sends :
      (s : Conn) (batches : List Sent) → P s → P (record s { sent = batches; buffered_send = [] })
  pub closes : (s : Conn) → P s → P (record s { closed = true })
  pub queues :
      (s : Conn) (queue : ResourcePackQueue) → P s → P (record s { pack_queue = some queue })

module _ (P : Conn → Type 0) (quiet : IsQuiet P) where
  pub keeps_either :
      {A : Type 0} (c : Bool) (x y : Result Fault A × Conn)
      → P x.1
      → P y.1
      → P (if c then x else y).1
  keeps_either true x y p q = p
  keeps_either false x y p q = q

  pub Keeps-write_packet : (pk : Message) → Keeps P (write_packet pk)
  unfolding write_packet
  Keeps-write_packet pk s p =
      keeps_either s.closed _ _ p (quiet.writes s (s.buffered_send ++ pk ∷ []) p)

  pub Keeps-flush : Keeps P flush
  unfolding flush
  Keeps-flush s p =
      keeps_either s.closed _ _ p
        (keeps_either (length s.buffered_send == 0) _ _ p (quiet.sends s _ p))

  pub Keeps-close : Keeps P close
  unfolding close
  Keeps-close s p = keeps_either s.closed _ _ p (quiet.closes (flush s).1 (Keeps-flush s p))

  -- `_ = conn.WritePacket(pk)`
  pub Keeps-try_write : (pk : Message) → Keeps P (ignore (write_packet pk))
  Keeps-try_write pk = Keeps-ignore P (write_packet pk) (Keeps-write_packet pk)

  keeps_queue :
      {A : Type 0} (f : ResourcePackQueue → Result Fault A × ResourcePackQueue)
      (o : Option ResourcePackQueue) (s : Conn)
      → P s
      → P
          (elim o as (λ _. Result Fault A × Conn) [
            | none ↦ (err nil_pointer, s)
            | some queue ↦ ((f queue).0, record s { pack_queue = some (f queue).1 })
          ]).1
  keeps_queue f none s p = p
  keeps_queue f (some queue) s p = quiet.queues s (f queue).1 p

  pub Keeps-with_queue :
      {A : Type 0} (f : ResourcePackQueue → Result Fault A × ResourcePackQueue)
      → Keeps P (with_queue f)
  unfolding with_queue
  Keeps-with_queue f s p = keeps_queue f s.pack_queue s p
