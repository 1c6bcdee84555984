-- ===== src/Prelude/Maps.antt =====
-- Go's `map[string]V`, as a list of its entries.
use Prim.Native.Nat.{ℕ}
use mathlib.Core.Path.{◌≡◌, refl}
use mathlib.Core.Logic.{inl, inr}
use mathlib.Core.Option.{Option, none, some}
use mathlib.Core.List.{List, [], ◌∷◌}
use gophertunnel.Prelude.Tests.{if◌then◌else◌, Bool-cases}
use mathlib.Core.Bool.{false}
use gophertunnel.Prelude.Lists.{All, bytes_equal, bytes_equal_refl, bytes_equal→eq}

module _ {ℓ} {V : Type ℓ} where
  abbrev pub find : List ℕ → List (List ℕ × V) → Option V
  find k [] = none
  find k ((k', v) ∷ m) = let rest = find k m in if bytes_equal k k' then some v else rest

  -- `m[k] = v`
  abbrev pub put : List ℕ → V → List (List ℕ × V) → List (List ℕ × V)
  put k v [] = (k, v) ∷ []
  put k v ((k', w) ∷ m) =
      let rest = put k v m in if bytes_equal k k' then (k, v) ∷ m else (k', w) ∷ rest

  -- `delete(m, k)`
  abbrev pub remove : List ℕ → List (List ℕ × V) → List (List ℕ × V)
  remove k [] = []
  remove k ((k', w) ∷ m) =
      let rest = remove k m in if bytes_equal k k' then rest else (k', w) ∷ rest

  -- What holds of every entry of a map and of a new one holds of every entry after `m[k] = v`.
  pub put-All {κ} :
      (P : List ℕ × V → Type κ) (k : List ℕ) (v : V) (m : List (List ℕ × V))
      → P (k, v)
      → All P m
      → All P (put k v m)
  put-All P k v [] p ps = (p, tt)
  put-All P k v ((k', w) ∷ m) p (q, ps) = elim (Bool-cases (bytes_equal k k')) [
    | inl same ↦ rw same (p, ps)
    | inr other ↦ rw other (q, put-All P k v m p ps)
  ]

  pub find-put : (k : List ℕ) (v : V) (m : List (List ℕ × V)) → find k (put k v m) ≡ some v
  find-put k v [] = rw (bytes_equal_refl k) refl
  find-put k v ((k', w) ∷ m) = elim (Bool-cases (bytes_equal k k')) [
    | inl same ↦ rw (same, bytes_equal_refl k) refl
    | inr other ↦ rw (other, other) (find-put k v m)
  ]

  -- A key that has a value has one after `m[k] = v`.
  pub put-Some :
      (j k : List ℕ) (v : V) (m : List (List ℕ × V)) {w : V}
      → find j m ≡ some w
      → (x : V) × (find j (put k v m) ≡ some x)
  put-Some j k v [] h = cc
  put-Some j k v ((k', u) ∷ m) {w = w} h = elim (Bool-cases (bytes_equal k k')) [
    | inl same ↦ elim (Bool-cases (bytes_equal j k)) [
      | inl hit ↦ (v, rw (same, hit) refl)
      | inr other ↦
          let old : bytes_equal j k' ≡ false = rw⁻¹ (bytes_equal→eq k k' same) other in
          (w, rw (same, other) (rw old at h))
    ]
    | inr differs ↦ elim (Bool-cases (bytes_equal j k')) [
      | inl hit ↦ (u, rw (differs, hit) refl)
      | inr other ↦
          let (x, found) = put-Some j k v m (rw other at h) in (x, rw (differs, other) found)
    ]
  ]
