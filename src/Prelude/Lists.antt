-- ===== src/Prelude/Lists.antt =====
-- Lists: predicates by recursion, Boolean search, and dictionaries keyed by text.
use Prim.Native.Nat.{ℕ, suc}
use Prim.Native.String.{String}
use mathlib.Core.Path.{◌≡◌, refl}
use mathlib.Core.Logic.{◌⊎◌, ◌↔◌, inl, inr}
use mathlib.Core.Bool.{Bool, true, false, ◌||◌}
use mathlib.Core.Option.{Option, none, some}
use mathlib.Core.List.{List, [], ◌∷◌}
use native.Mathlib.Omega.{arith}
use text.Mathlib.Text.{◌==◌ as str_eq}
use text.Mathlib.TextEquality.{eq_iff}
use elephantine.Prelude.Tests.{if◌then◌else◌, Bool-cases}

module _ {ℓ} {A : Type ℓ} where
  abbrev pub length : List A → ℕ
  length [] = 0
  length (x ∷ xs) = suc (length xs)

  abbrev pub All {κ} : (A → Type κ) → List A → Type κ
  All P [] = Unit
  All P (x ∷ xs) = P x × All P xs

  -- `Exists P xs` keeps the position: the element is found by walking it.
  abbrev pub Exists {κ} : (A → Type κ) → List A → Type κ
  Exists P [] = Unit → ⊥
  Exists P (x ∷ xs) = P x ⊎ Exists P xs

  abbrev pub any : (A → Bool) → List A → Bool
  any p [] = false
  any p (x ∷ xs) = p x || any p xs

pub any_iff {ℓ κ} :
    {A : Type ℓ} (p : A → Bool) (P : A → Type κ)
    → ((a : A) → (p a ≡ true) ↔ P a)
    → (xs : List A) → (any p xs ≡ true) ↔ Exists P xs
any_iff p P each [] = (λ h. cc, λ h. absurd (h tt))
any_iff p P each (x ∷ xs) = (
  λ h. elim (Bool-cases (p x)) [
    | inl here ↦ inl ((each x).0 here)
    | inr there ↦ inr ((any_iff p P each xs).0 (ground arith))
  ],
  elim [
    | inl here ↦ rw ((each x).1 here)
    | inr there ↦ rw ((any_iff p P each xs).1 there) (ground arith)
  ],
)

module _ {ℓ} {V : Type ℓ} where
  -- The value of a key in a Go map, kept as a list of its entries.
  unfoldable pub lookup : (wanted : String) → List (String × V) → Option V
  lookup wanted [] = none
  lookup wanted ((key, held) ∷ entries) =
      if str_eq key wanted then some held else lookup wanted entries

  -- m[key] = new: the entry of the key is replaced where it stands, or is added at the end.
  unfoldable pub insert : (key : String) (new : V) → List (String × V) → List (String × V)
  insert key new [] = (key, new) ∷ []
  insert key new ((other, held) ∷ entries) =
      let later = insert key new entries in
      if str_eq other key then (other, new) ∷ entries else (other, held) ∷ later

  pub lookup-insert :
      (key wanted : String) (new : V) (entries : List (String × V))
      → lookup wanted (insert key new entries)
        ≡ (if str_eq key wanted then some new else lookup wanted entries)
  unfolding lookup insert
  lookup-insert key wanted new [] = refl
  lookup-insert key wanted new ((other, held) ∷ entries) = ground (
    arith,
    lookup-insert key wanted new entries,
    eq_iff other key,
    eq_iff other wanted,
    eq_iff key wanted,
  )

-- The first of two options, where it has a value, and else the second.
abbrev pub or_else {ℓ} : {A : Type ℓ} → Option A → Option A → Option A
or_else none other = other
or_else (some v) other = some v
