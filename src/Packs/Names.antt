-- ===== src/Packs/Names.antt =====
-- What a client may write for a pack (`strings.Cut` and the test of `resourcePackQueue.Request`).
use gophertunnel.Prelude.{
  ℕ, Bool, true, false, not, ◌&&◌, ◌||◌, ◌==◌, ==_iff, Bool-cases, ◌⊎◌, inl, inr, List, [], ◌∷◌,
  ◌++◌, ◌≡◌, ◌≢◌, All, refl, ap, sym, ◌∙◌, length, bytes_equal, bytes_equal_refl, bytes_equal→eq,
  arith,
}
use mathlib.Core.Path.{subst}
use gophertunnel.Packs.{Pack}
use gophertunnel.Packs.Queue.{cut, answers}

-- What a client may write for a pack: its UUID, alone, with an underscore behind it, or with an
-- underscore and its version.
abbrev pub Names : (List ℕ → List ℕ) → Pack → List ℕ → Type 0
Names uuid_string pack id =
    (id ≡ uuid_string pack.uuid)
    ⊎ ((id ≡ uuid_string pack.uuid ++ 95 ∷ []) ⊎ (id ≡ uuid_string pack.uuid ++ 95 ∷ pack.version))

abbrev pub Plain : List ℕ → Type 0
Plain s = All (λ b. b ≢ 95) s

not_95 : (b : ℕ) → b ≢ 95 → (b == 95) ≡ false
not_95 b h = ground arith

cut-Plain : (s : List ℕ) → Plain s → cut s ≡ (s, [], false)
cut-Plain [] h = refl
cut-Plain (b ∷ s) (h, hs) = rw (not_95 b h, cut-Plain s hs) refl

cut-joined : (s t : List ℕ) → Plain s → cut (s ++ 95 ∷ t) ≡ (s, t, true)
cut-joined [] t h = refl
cut-joined (b ∷ s) t (h, hs) = rw (not_95 b h, cut-joined s t hs) refl

cut_joins :
    (s : List ℕ)
    → (((cut s).2 ≡ false) × ((cut s).0 ≡ s))
      ⊎ (((cut s).2 ≡ true) × ((cut s).0 ++ 95 ∷ (cut s).1 ≡ s))
cut_joins [] = inl (refl, refl)
cut_joins (b ∷ s) = elim (Bool-cases (b == 95)) [
  | inl same ↦ inr (rw same (refl, ap (λ c. c ∷ s) (sym ((==_iff b 95).0 same))))
  | inr other ↦ elim (cut_joins s) [
    | inl whole ↦ inl (rw other (whole.0, ap (λ t. b ∷ t) whole.1))
    | inr parts ↦ inr (rw other (parts.0, ap (λ t. b ∷ t) parts.1))
  ]
]

no_length : (s : List ℕ) → (length s == 0) ≡ true → s ≡ []
no_length [] h = refl
no_length (b ∷ s) h = absurd (ground arith)

any_true : (a b c : Bool) → (not a || b || c) ≡ true → (a ≡ false) ⊎ ((b ≡ true) ⊎ (c ≡ true))
any_true false b c h = inl refl
any_true true true c h = inr (inl refl)
any_true true false c h = inr (inr h)

both_true : (a b : Bool) → (a && b) ≡ true → (a ≡ true) × (b ≡ true)
both_true true b h = (refl, h)
both_true false b h = cc

or_true : (b : Bool) → (b || true) ≡ true
or_true true = refl
or_true false = refl

module _ (uuid_string : List ℕ → List ℕ) where
  pub answers-Names :
      (id : List ℕ) (pack : Pack) → answers uuid_string id pack ≡ true → Names uuid_string pack id
  answers-Names id pack h =
      let (same_uuid, rest) = both_true _ _ h in
      let uuid : (cut id).0 ≡ uuid_string pack.uuid = bytes_equal→eq _ _ same_uuid in
      elim (cut_joins id) [
        | inl whole ↦ inl (sym whole.1 ∙ uuid)
        | inr parts ↦
            let split : id ≡ uuid_string pack.uuid ++ 95 ∷ (cut id).1 =
              sym (subst (λ u. u ++ 95 ∷ (cut id).1 ≡ id) uuid parts.1) in
            elim (any_true (cut id).2 (length (cut id).1 == 0) (bytes_equal (cut id).1 pack.version)
              rest) [
                | inl bare ↦ absurd (cc (bare, parts.0))
                | inr (inl open') ↦ inr (inl (rw (no_length (cut id).1 open') at split))
                | inr (inr full) ↦
                    inr (inr (rw (bytes_equal→eq (cut id).1 pack.version full) at split))
              ]
      ]

  pub Names-answers :
      (id : List ℕ) (pack : Pack)
      → Plain (uuid_string pack.uuid)
      → Names uuid_string pack id
      → answers uuid_string id pack ≡ true
  Names-answers id pack plain (inl bare) =
      rw (bare, cut-Plain (uuid_string pack.uuid) plain, bytes_equal_refl (uuid_string pack.uuid))
        refl
  Names-answers id pack plain (inr (inl open')) =
      rw
        (
          open',
          cut-joined (uuid_string pack.uuid) [] plain,
          bytes_equal_refl (uuid_string pack.uuid),
        )
        refl
  Names-answers id pack plain (inr (inr full)) =
      rw
        (
          full,
          cut-joined (uuid_string pack.uuid) pack.version plain,
          bytes_equal_refl (uuid_string pack.uuid),
          bytes_equal_refl pack.version,
        )
        (or_true (length pack.version == 0))
