-- ===== src/Io/Sim.antt =====
-- One Marshal function run by a Writer and by a Reader, side by side: `Sim k w r a` says that `w`
-- appends some bytes, at least `k`, and that `r` on those bytes, whatever follows them and whatever
-- its scratch array holds, takes them and no more; both end with the value `a`.
use gophertunnel.Prelude.{
  ℕ, ◌+◌, ◌≤◌, List, [], ◌++◌, ◌≡◌, refl, arith, length, append_assoc, append-nil, length-append,
}
use gophertunnel.Prelude.Results.{ok}
use gophertunnel.Io.{Stream, M, ◌>>=◌, pure}

pub record Sim {A : Type 0} (k : ℕ) (w r : M A) (a : A) : Type 0 where
  pub emitted : List ℕ
  pub enough : k ≤ length emitted
  pub writes : (s : Stream) → w s ≡ ok (a, record s { bytes = s.bytes ++ emitted })
  pub reads :
      (rest buf : List ℕ)
      → (buf' : List ℕ) × (r (record { bytes = emitted ++ rest; buf = buf })
          ≡ ok (a, record { bytes = rest; buf = buf' }))

pub done : {A : Type 0} {a : A} → Sim 0 (pure a) (pure a) a
done = record {
  emitted = [];
  enough = omega arith;
  writes = λ s. rw append-nil;
  reads = λ rest buf. (buf, refl);
}

pub step :
    {A B : Type 0} {j k : ℕ} {w r : M A} (f g : A → M B) {a : A} {b : B}
    → Sim j w r a
    → Sim k (f a) (g a) b
    → Sim j (w >>= f) (r >>= g) b
step {r = r} f g {b = b} p q = record {
  emitted = p.emitted ++ q.emitted;
  enough = omega (arith, p.enough, length-append p.emitted q.emitted);
  writes = λ s. rw (◌>>=◌, p.writes s) (rw (q.writes _, append_assoc));
  reads = λ rest buf.
      let (mid, e) = p.reads (q.emitted ++ rest) buf in
      let (last, e') = q.reads rest mid in (last, rw (append_assoc, ◌>>=◌, e) e');
}

-- The second part counted too.
pub step_both :
    {A B : Type 0} {j k : ℕ} {w r : M A} (f g : A → M B) {a : A} {b : B}
    → Sim j w r a
    → Sim k (f a) (g a) b
    → Sim (j + k) (w >>= f) (r >>= g) b
unfolding step
step_both f g p q = record {
  emitted = p.emitted ++ q.emitted;
  enough = omega (arith, p.enough, q.enough, length-append p.emitted q.emitted);
  writes = (step f g p q).writes;
  reads = (step f g p q).reads;
}

pub weaken : {A : Type 0} {j k : ℕ} {w r : M A} {a : A} → j ≤ k → Sim k w r a → Sim j w r a
weaken h p = record {
  emitted = p.emitted;
  enough = omega (arith, p.enough);
  writes = p.writes;
  reads = p.reads;
}
