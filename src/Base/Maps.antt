-- ===== src/Base/Maps.antt =====
-- A Python dict keyed by numbers or numbered texts, in insertion order.
use Prim.Native.Nat.{ℕ, ◌≤◌}
use mathlib.Core.Path.{◌≡◌, refl}
use mathlib.Core.Logic.{◌≢◌}
use mathlib.Core.List.{List, [], ◌∷◌}
use mathlib.Core.Option.{Option, none, some}
use native.Mathlib.Omega.{arith}
use aletheia_onto.Base.Tests.{◌==◌, if◌then◌else◌}
use aletheia_onto.Base.Lists.{length}

abbrev pub Dict {ℓ} : Type ℓ → Type ℓ
Dict V = List (ℕ × V)

module _ {ℓ} {V : Type ℓ} where
  -- `d.get(k)`
  abbrev pub lookup : ℕ → Dict V → Option V
  lookup key [] = none
  lookup key ((other, value) ∷ entries) = if key == other then some value else lookup key entries

  -- `d.get(k, v)`
  abbrev pub lookup_or : V → ℕ → Dict V → V
  lookup_or w k d = elim (lookup k d) [ none ↦ w | some v ↦ v ]

  -- `d.pop(k, None)`
  abbrev pub erase : ℕ → Dict V → Dict V
  erase key [] = []
  erase key (entry ∷ entries) = if key == entry.0 then entries else entry ∷ erase key entries

  -- `d[k] = v`
  abbrev pub insert : ℕ → V → Dict V → Dict V
  insert key value [] = (key, value) ∷ []
  insert key value (entry ∷ entries) =
      if key == entry.0 then (key, value) ∷ entries else entry ∷ insert key value entries

  pub lookup-erase_ne :
      (j k : ℕ) (entries : Dict V) → j ≢ k → lookup j (erase k entries) ≡ lookup j entries
  lookup-erase_ne j k [] other = refl
  lookup-erase_ne j k (entry ∷ entries) other = ground (arith, lookup-erase_ne j k entries other)

  pub lookup-insert :
      (j k : ℕ) (v : V) (d : Dict V)
      → lookup j (insert k v d) ≡ (if j == k then some v else lookup j d)
  lookup-insert j k v [] = refl
  lookup-insert j k v (e ∷ d) = ground (arith, lookup-insert j k v d)

  pub length-insert-le : (k : ℕ) (v : V) (d : Dict V) → length d ≤ length (insert k v d)
  length-insert-le k v [] = omega arith
  length-insert-le k v (e ∷ d) = ground (arith, length-insert-le k v d)

  pub lookup_or_absent : (w : V) (k : ℕ) (d : Dict V) → lookup k d ≡ none → lookup_or w k d ≡ w
  lookup_or_absent w k d e = rw (e, lookup_or)

  pub lookup_or-insert :
      (w : V) (j k : ℕ) (v : V) (d : Dict V)
      → lookup_or w j (insert k v d) ≡ (if j == k then v else lookup_or w j d)
  lookup_or-insert w j k v d = ground (arith, lookup-insert j k v d)
