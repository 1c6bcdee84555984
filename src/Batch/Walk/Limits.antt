-- ===== src/Batch/Walk/Limits.antt =====
-- What `walkBatch` does with any payload, well formed or not.
use gophertunnel.Prelude.{
  ℕ, zero, suc, ◌+◌, ◌*◌, ◌%◌, ◌^◌, ◌≤◌, ◌<◌, Bool, true, List, [], ◌∷◌, ◌++◌, length, ◌≡◌, sym,
  ◌∙◌, arith, All, append-nil, bit_and, bit_or, append_assoc, ◌⊎◌, inl, inr, take, drop,
  length-take, length-drop,
}
use gophertunnel.Prelude.Results.{Result, ok, err, Result-cases, ◌>>=◌, >>=-cong, fold_result}
use gophertunnel.Batch.Walk.{
  packet_length_loop, read_packet_length, check_packet, walk_loop, walk_batch, collect, validate,
  maximum_in_batch,
}
use gophertunnel.Batch.Walk.RoundTrip.{walk_loop_end}
use gophertunnel.Errors.{Error}

packet_length_loop_takes :
    (rounds i v : ℕ) (src : List ℕ) (x : ℕ) (rest : List ℕ)
    → packet_length_loop rounds i v src ≡ ok (x, rest)
    → length rest < length src
unfolding packet_length_loop
packet_length_loop_takes zero i v src x rest h = cc
packet_length_loop_takes (suc rounds) i v [] x rest h = cc
packet_length_loop_takes (suc rounds) i v (b ∷ src) x rest h = ground (
  arith,
  packet_length_loop_takes rounds (i + 7) (bit_or v (bit_and b 0x7f * 2 ^ i % 2 ^ 32)) src x rest,
)

read_packet_length_takes :
    (src : List ℕ) (x : ℕ) (rest : List ℕ)
    → read_packet_length src ≡ ok (x, rest)
    → length rest < length src
unfolding read_packet_length
read_packet_length_takes src x rest h = packet_length_loop_takes 5 0 0 src x rest h

check_packet_ok :
    (check : Bool) (count len : ℕ) (rest : List ℕ)
    → check_packet check count len rest ≡ ok tt
    → (1 ≤ len) × (len ≤ length rest) × (check ≡ true → count < maximum_in_batch)
unfolding check_packet
check_packet_ok check count len rest h = ground arith

-- A walk refuses the payload, with one error for every callback that accepts all packets, or takes
-- it apart into packets that are not empty and not too many, and then runs any callback on these.
pub record Accepted (check : Bool) (rounds count : ℕ) (src : List ℕ) (packets : List (List ℕ))
    : Type 1 where
  pub validated : walk_loop check validate rounds count src tt ≡ ok tt
  pub collected :
      (found : List (List ℕ))
      → walk_loop check collect rounds count src found ≡ ok (found ++ packets)
  pub dispatched :
      {A : Type 0} (f : List ℕ → A → Result Error A) (a : A)
      → walk_loop check f rounds count src a ≡ fold_result f packets a
  pub not_empty : All (λ packet. 1 ≤ length packet) packets
  pub few : check ≡ true → count ≤ maximum_in_batch → count + length packets ≤ maximum_in_batch

pub record Refused (check : Bool) (rounds count : ℕ) (src : List ℕ) (e : Error) : Type 0 where
  pub validated : walk_loop check validate rounds count src tt ≡ err e
  pub collected : (found : List (List ℕ)) → walk_loop check collect rounds count src found ≡ err e

pub walk_loop-cases :
    (check : Bool) (rounds count : ℕ) (src : List ℕ)
    → length src ≤ rounds
    → ((packets : List (List ℕ)) × Accepted check rounds count src packets)
      ⊎ ((e : Error) × Refused check rounds count src e)
unfolding walk_loop
walk_loop-cases check rounds count [] h = inl (
  [],
  record {
    validated = walk_loop_end check validate rounds count tt;
    collected = λ found. walk_loop_end check collect rounds count found ∙ rw (append-nil found);
    dispatched = λ f a. walk_loop_end check f rounds count a;
    not_empty = tt;
    few = λ _ le. omega arith;
  },
)
walk_loop-cases check zero count (b ∷ src) h = absurd (omega arith)
walk_loop-cases check (suc rounds) count (b ∷ src) h =
    elim (Result-cases (read_packet_length (b ∷ src))) [
      | inr (e, hr) ↦ inr (e, record { validated = rw hr; collected = λ found. rw hr })
      | inl ((len, rest), hr) ↦ elim (Result-cases (check_packet check count len rest)) [
        | inr (e, hc) ↦
            inr (e, record { validated = rw (hr, hc); collected = λ found. rw (hr, hc) })
        | inl (tt, hc) ↦
            elim (walk_loop-cases check rounds (count + 1) (drop len rest) (
              omega
                (arith, read_packet_length_takes (b ∷ src) len rest hr, length-drop len rest))) [
                  | inr (e, r) ↦ inr (
                    e,
                    record {
                      validated = rw (hr, hc) r.validated;
                      collected = λ found. rw (hr, hc) (r.collected (found ++ take len rest ∷ []));
                    },
                  )
                  | inl (packets, w) ↦ inl (
                    take len rest ∷ packets,
                    record {
                      validated = rw (hr, hc) w.validated;
                      collected = λ found.
                          rw (hr, hc) (w.collected (found ++ take len rest ∷ []) ∙ rw append_assoc);
                      dispatched =
                          λ f a. rw (hr, hc) (>>=-cong (f (take len rest) a) (w.dispatched f));
                      not_empty = (
                        omega
                            (arith, length-take len rest, check_packet_ok check count len rest hc),
                        w.not_empty,
                      );
                      few = λ on le. ground (arith, w.few, check_packet_ok check count len rest hc);
                    },
                  )
                ]
      ]
    ]

-- A payload that `walkBatch` accepts holds no empty packet, and no more than 812 where that is
-- checked.
pub walk_batch-bounded :
    (check : Bool) (src : List ℕ) (packets : List (List ℕ))
    → walk_batch check collect src [] ≡ ok packets
    → All (λ packet. 1 ≤ length packet) packets × (check ≡ true → length packets ≤ maximum_in_batch)
unfolding walk_batch
walk_batch-bounded check src packets h =
    elim (walk_loop-cases check (length src) 0 src (omega arith)) [
      | inr (e, r) ↦ let bad = r.collected [] in cc
      | inl (found, w) ↦
          let same : found ≡ packets = let all = w.collected [] in cc in
          rw (sym same) (w.not_empty, λ on. omega (arith, w.few on (omega arith)))
    ]

-- A walk that validates first and then runs the callback is the walk that collects the packets,
-- followed by the callback on each: no packet of a malformed payload is dispatched.
pub walk_batch-dispatch :
    {A : Type 0} (check : Bool) (f : List ℕ → A → Result Error A) (src : List ℕ) (a : A)
    → (walk_batch check validate src tt >>= λ _. walk_batch check f src a)
      ≡ (walk_batch check collect src [] >>= λ packets. fold_result f packets a)
unfolding walk_batch
walk_batch-dispatch check f src a = elim (walk_loop-cases check (length src) 0 src (omega arith)) [
  | inr (e, r) ↦ rw (r.validated, r.collected [])
  | inl (found, w) ↦ rw (w.validated, w.collected [], w.dispatched f a)
]
