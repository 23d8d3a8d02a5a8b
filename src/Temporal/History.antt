-- ===== src/Temporal/History.antt =====
-- What the rows of one attribute answer after any recordings, in any order of their starts:
-- `values_as_of` of backend/ontology_platform/temporal.py before the cut.
use aletheia_onto.Base.{
  ℕ, ◌<◌, ◌≡◌, refl, ◌∙◌, ap, sym, subst, Option, none, some, List, [], ◌∷◌, arith, leb, Bool-cases,
  Option-cases, inl, inr,
}
use aletheia_onto.Temporal.{
  AttributeVersion, end_of, covers, covering, value_as_of, close, insert_version, record_one,
}
use aletheia_onto.Temporal.Latest.{Gapless, IsGapless, latest, none_before, covering-latest}
use aletheia_onto.Temporal.Record.{
  Sorted, IsSorted, Gapless-Sorted, close-Sorted, later_of, recorded, latest-close,
  latest-insert_version, insert_before,
}

module _ {V : Type 0} where
  close-none :
      (start : ℕ) (versions : List (AttributeVersion V))
      → covering start versions ≡ none
      → close start versions ≡ versions
  unfolding covering close
  close-none start [] c = refl
  close-none start (v ∷ versions) c = elim (Option-cases (covering start versions)) [
    | inr (x, e) ↦ absurd (ground (arith, e, c))
    | inl e ↦ elim (Bool-cases (covers v start)) [
      | inl f ↦ absurd (ground (arith, e, f, c))
      | inr f ↦ rw (close, e, f) refl
    ]
  ]

  -- Nothing has started: the new row comes first and is open.
  record_first :
      (start : ℕ) (value : V) (v : AttributeVersion V) (versions : List (AttributeVersion V))
      → Gapless v versions
      → start < v.valid_from
      → record_one (v ∷ versions) start value
        ≡ record { value = value; valid_from = start; valid_to = none } ∷ v ∷ versions
  unfolding record_one
  record_first start value v versions g lt =
      let (c, l) = none_before start v versions g lt in
      rw (c, close-none start (v ∷ versions) c)
        (insert_before (record { value = value; valid_from = start; valid_to = none }) v versions
          lt)

  record_empty :
      (start : ℕ) (value : V)
      → record_one [] start value
        ≡ record { value = value; valid_from = start; valid_to = none } ∷ []
  unfolding record_one close insert_version covering
  record_empty start value = refl

  pub record-IsGapless :
      (start : ℕ) (value : V) (versions : List (AttributeVersion V))
      → IsGapless versions
      → IsGapless (record_one versions start value)
  record-IsGapless start value [] g = subst IsGapless (sym (record_empty start value)) refl
  record-IsGapless start value (v ∷ versions) g = elim (Bool-cases (leb v.valid_from start)) [
    | inl e ↦
        let (h, tail, eq, same, gapless) = recorded start value v versions g (ground (arith, e)) in
        subst IsGapless (sym eq) gapless
    | inr e ↦
        let lt : start < v.valid_from = ground (arith, e) in
        subst IsGapless (sym (record_first start value v versions g lt)) (omega arith, (λ s. tt), g)
  ]

  close-IsSorted :
      (start : ℕ) (versions : List (AttributeVersion V))
      → IsGapless versions
      → IsSorted (close start versions)
  unfolding close
  close-IsSorted start [] g = tt
  close-IsSorted start (v ∷ versions) g =
      behind v (close start (v ∷ versions))
        (close-Sorted start v (v ∷ versions) (omega arith, Gapless-Sorted v versions g))
    where
      behind : (v : AttributeVersion V) (vs : List (AttributeVersion V)) → Sorted v vs → IsSorted vs
      behind v [] s = tt
      behind v (w ∷ vs) s = s.1

  latest-record :
      (t start : ℕ) (value : V) (versions : List (AttributeVersion V))
      → IsGapless versions
      → latest t (record_one versions start value) ≡ later_of t (latest t versions) start value
  unfolding record_one
  latest-record t start value versions g =
      latest-insert_version t
        (record { value = value; valid_from = start; valid_to = end_of (covering start versions) })
        (close start versions) (close-IsSorted start versions g)
      ∙ ap (λ e. later_of t e start value) (latest-close t start versions)

  abbrev pub value_of : Option (ℕ × V) → Option V
  value_of none = none
  value_of (some e) = some e.1

  value_as_of-latest :
      (t : ℕ) (versions : List (AttributeVersion V))
      → IsGapless versions
      → value_as_of versions t ≡ value_of (latest t versions)
  unfolding value_as_of latest covering
  value_as_of-latest t [] g = refl
  value_as_of-latest t (v ∷ versions) g = elim (Bool-cases (leb v.valid_from t)) [
    | inl e ↦
        let (w, c, l) = covering-latest t v versions g (ground (arith, e)) in
        rw (value_as_of, c, l) refl
    | inr e ↦
        let (c, l) = none_before t v versions g (ground (arith, e)) in rw (value_as_of, c, l) refl
  ]

  -- The recordings, one after the other.
  unfoldable pub record_each : List (AttributeVersion V) → List (ℕ × V) → List (AttributeVersion V)
  record_each versions [] = versions
  record_each versions ((start, value) ∷ more) = record_each (record_one versions start value) more

  -- Of the recordings that start no later than `t`, the one that starts last, and the last of these.
  unfoldable pub last_started : ℕ → Option (ℕ × V) → List (ℕ × V) → Option (ℕ × V)
  last_started t best [] = best
  last_started t best ((start, value) ∷ more) = last_started t (later_of t best start value) more

  record_each-latest :
      (t : ℕ) (recordings : List (ℕ × V)) (versions : List (AttributeVersion V))
      → IsGapless versions
      → value_as_of (record_each versions recordings) t
        ≡ value_of (last_started t (latest t versions) recordings)
  unfolding record_each last_started
  record_each-latest t [] versions g = value_as_of-latest t versions g
  record_each-latest t ((start, value) ∷ more) versions g =
      record_each-latest t more (record_one versions start value)
        (record-IsGapless start value versions g)
      ∙ ap (λ e. value_of (last_started t e more)) (latest-record t start value versions g)

  -- After any recordings into an empty table, backdated ones and corrections included, the value
  -- as of a moment is that of the recording that starts last among those that start no later, the
  -- last recorded one of these, and there is no value where no recording starts by then.
  pub value_as_of-record_each :
      (t : ℕ) (recordings : List (ℕ × V))
      → value_as_of (record_each [] recordings) t ≡ value_of (last_started t none recordings)
  unfolding latest
  value_as_of-record_each t recordings = record_each-latest t recordings [] tt
