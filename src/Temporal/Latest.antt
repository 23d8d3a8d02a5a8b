-- ===== src/Temporal/Latest.antt =====
-- In a table without a gap the covering version of backend/ontology_platform/temporal.py is the
-- latest one that has started.
use aletheia_onto.Base.{
  ℕ, ◌≤◌, ◌<◌, ◌≡◌, refl, true, Option, none, some, List, [], ◌∷◌, arith, leb, if◌then◌else◌,
  Bool-cases, inl, inr,
}
use aletheia_onto.Temporal.{AttributeVersion, lasts, covers, covering}

-- A window that does not end before `instant`.
abbrev pub Reaches : Option ℕ → ℕ → Type 0
Reaches none instant = Unit
Reaches (some end) instant = instant ≤ end

pub Reaches-lasts : (o : Option ℕ) (t s : ℕ) → t < s → Reaches o s → lasts o t ≡ true
Reaches-lasts none t s lt r = refl
Reaches-lasts (some e) t s lt r = ground arith

module _ {V : Type 0} where
  -- The rows are in order; each but the last lasts until the next one starts, or starts with it;
  -- the last is open.
  abbrev pub Gapless : AttributeVersion V → List (AttributeVersion V) → Type 0
  Gapless v [] = v.valid_to ≡ none
  Gapless v (w ∷ versions) =
      (v.valid_from ≤ w.valid_from)
      × (v.valid_from < w.valid_from → Reaches v.valid_to w.valid_from)
      × Gapless w versions

  abbrev pub IsGapless : List (AttributeVersion V) → Type 0
  IsGapless [] = Unit
  IsGapless (v ∷ versions) = Gapless v versions

  -- Start and value of the last row that starts no later.
  unfoldable pub latest : ℕ → List (AttributeVersion V) → Option (ℕ × V)
  latest instant [] = none
  latest instant (v ∷ versions) = elim (latest instant versions) [
    | none ↦ if leb v.valid_from instant then some (v.valid_from, v.value) else none
    | some e ↦ some e
  ]

  pub none_before :
      (t : ℕ) (v : AttributeVersion V) (versions : List (AttributeVersion V))
      → Gapless v versions
      → t < v.valid_from
      → (covering t (v ∷ versions) ≡ none) × (latest t (v ∷ versions) ≡ none)
  unfolding covering latest covers
  none_before t v [] g lt = (ground arith, ground arith)
  none_before t v (w ∷ versions) g lt =
      let (le, reach, rest) = g in
      let (c, l) = none_before t w versions rest (omega arith) in
      (rw c (ground arith), rw l (ground arith))

  pub covering-latest :
      (t : ℕ) (v : AttributeVersion V) (versions : List (AttributeVersion V))
      → Gapless v versions
      → v.valid_from ≤ t
      → (w : AttributeVersion V) × (covering t (v ∷ versions) ≡ some w)
        × (latest t (v ∷ versions) ≡ some (w.valid_from, w.value))
  unfolding covering latest covers
  covering-latest t v [] g le = (v, rw g (ground arith), ground arith)
  covering-latest t v (w ∷ versions) g le =
      let (sorted, reach, rest) = g in
      elim (Bool-cases (leb w.valid_from t)) [
        | inl e ↦
            let (x, c, l) = covering-latest t w versions rest (ground (arith, e)) in
            (x, rw c refl, rw l refl)
        | inr e ↦
            let later : t < w.valid_from = ground (arith, e) in
            let (c, l) = none_before t w versions rest later in
            let holds = Reaches-lasts v.valid_to t w.valid_from later (reach (omega arith)) in
            (v, rw (c, holds) (ground arith), rw l (ground arith))
      ]
