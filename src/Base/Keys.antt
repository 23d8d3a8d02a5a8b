-- ===== src/Base/Keys.antt =====
-- Dicts that list no key twice.
use Prim.Native.Nat.{ℕ}
use mathlib.Core.Path.{◌≡◌, refl}
use mathlib.Core.List.{[], ◌∷◌, ◌++◌}
use mathlib.Core.Option.{none, some}
use native.Mathlib.Omega.{arith}
use aletheia_onto.Base.Tests.{◌==◌, if◌then◌else◌}
use aletheia_onto.Base.Maps.{Dict, lookup, insert, erase, lookup-insert}

-- No key is listed twice.
abbrev pub Distinct {ℓ} : {V : Type ℓ} → Dict V → Type ℓ
Distinct [] = Unit
Distinct ((k, v) ∷ d) = (lookup k d ≡ none) × Distinct d

module _ {ℓ} {V : Type ℓ} where
  pub lookup-snoc :
      (j k : ℕ) (v : V) (d : Dict V)
      → lookup j (d ++ (k, v) ∷ [])
        ≡ elim (lookup j d) [ none ↦ if j == k then some v else none | some w ↦ some w ]
  lookup-snoc j k v [] = refl
  lookup-snoc j k v (e ∷ d) = ground (arith, lookup-snoc j k v d)

  pub Distinct-snoc :
      (k : ℕ) (v : V) (d : Dict V) → Distinct d → lookup k d ≡ none → Distinct (d ++ (k, v) ∷ [])
  Distinct-snoc k v [] h e = (refl, tt)
  Distinct-snoc k v (x ∷ d) h e = ground (arith, Distinct-snoc k v d h.1, lookup-snoc x.0 k v d)

  pub lookup-erase-none : (j k : ℕ) (d : Dict V) → lookup j d ≡ none → lookup j (erase k d) ≡ none
  lookup-erase-none j k [] e = refl
  lookup-erase-none j k (x ∷ d) e = ground (arith, lookup-erase-none j k d)

  pub Distinct-erase : (k : ℕ) (d : Dict V) → Distinct d → Distinct (erase k d)
  Distinct-erase k [] h = tt
  Distinct-erase k (x ∷ d) h = ground (arith, Distinct-erase k d h.1, lookup-erase-none x.0 k d)

  pub lookup-erase_self : (k : ℕ) (d : Dict V) → Distinct d → lookup k (erase k d) ≡ none
  lookup-erase_self k [] h = refl
  lookup-erase_self k (x ∷ d) h = ground (arith, lookup-erase_self k d h.1)

  pub Distinct-insert : (k : ℕ) (v : V) (d : Dict V) → Distinct d → Distinct (insert k v d)
  Distinct-insert k v [] h = (refl, tt)
  Distinct-insert k v (x ∷ d) h = ground (arith, Distinct-insert k v d h.1, lookup-insert x.0 k v d)
