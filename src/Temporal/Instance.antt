-- ===== src/Temporal/Instance.antt =====
-- Recordings of several attributes of one instance: backend/ontology_platform/temporal.py.
use aletheia_onto.Base.{
  ℕ, suc, ◌+◌, ◌≤◌, ◌≡◌, refl, sym, ◌∙◌, ap, false, none, List, [], ◌∷◌, arith, length, Text, ◌==◌,
  ==→eq, subst, if◌then◌else◌, Bool-cases, inl, inr,
}
use aletheia_onto.Temporal.{
  AttributeVersion, covering, end_of, insert_version, record_one, value_as_of,
  max_versions_per_instance, rows_of, close_row, record_attribute_version, load_versions,
  values_as_of,
}
use aletheia_onto.Temporal.History.{value_of, record_each, last_started, value_as_of-record_each}
use aletheia_onto.Temporal.Rows.{
  IsAscending, starts, rows_of-close_row, other-close_row, starts-close_row, rows_of-insert_row,
  other-insert_row, insert_row-IsAscending, length-insert_row, take_all,
}

module _ {V : Type 0} where
  -- One recording, for its own attribute and for the others.
  module _ (code : Text) (start : ℕ) (value : V) (table : List (Text × AttributeVersion V))
      (ascending : IsAscending (starts table)) where
    record_own :
        rows_of code (record_attribute_version table code start value)
        ≡ record_one (rows_of code table) start value
    unfolding record_attribute_version record_one
    record_own =
        rows_of-insert_row code
          (record {
            value = value;
            valid_from = start;
            valid_to = end_of (covering start (rows_of code table));
          })
          (close_row code start table)
          (subst IsAscending (sym (starts-close_row code start table)) ascending)
        ∙ ap
            (insert_version (record {
              value = value;
              valid_from = start;
              valid_to = end_of (covering start (rows_of code table));
            }))
            (rows_of-close_row code start table)

    record_other :
        (other : Text)
        → (code == other) ≡ false
        → rows_of other (record_attribute_version table code start value) ≡ rows_of other table
    unfolding record_attribute_version
    record_other other ne =
        other-insert_row code other _ (close_row code start table) ne
        ∙ other-close_row code other start table ne

    record-IsAscending : IsAscending (starts (record_attribute_version table code start value))
    unfolding record_attribute_version
    record-IsAscending =
        insert_row-IsAscending code _ (close_row code start table)
          (subst IsAscending (sym (starts-close_row code start table)) ascending)

    length-record :
        length (starts (record_attribute_version table code start value))
        ≡ suc (length (starts table))
    unfolding record_attribute_version
    length-record =
        length-insert_row code _ (close_row code start table)
        ∙ ap (λ ns. suc (length ns)) (starts-close_row code start table)

  -- The recordings, one after the other, each of an attribute.
  unfoldable pub record_all :
      List (Text × AttributeVersion V) → List (Text × ℕ × V) → List (Text × AttributeVersion V)
  record_all table [] = table
  record_all table ((code, start, value) ∷ more) =
      record_all (record_attribute_version table code start value) more

  -- The recordings of one attribute.
  unfoldable pub recordings_of : Text → List (Text × ℕ × V) → List (ℕ × V)
  recordings_of code [] = []
  recordings_of code ((c, start, value) ∷ more) =
      let rest = recordings_of code more in if c == code then (start, value) ∷ rest else rest

  rows_of-record_all :
      (code : Text) (recordings : List (Text × ℕ × V)) (table : List (Text × AttributeVersion V))
      → IsAscending (starts table)
      → rows_of code (record_all table recordings)
        ≡ record_each (rows_of code table) (recordings_of code recordings)
  unfolding record_all recordings_of record_each
  rows_of-record_all code [] table a = refl
  rows_of-record_all code ((c, start, value) ∷ more) table a =
      let ih =
        rows_of-record_all code more (record_attribute_version table c start value)
          (record-IsAscending c start value table a) in
      elim (Bool-cases (c == code)) [
        | inl e ↦
            let same : c ≡ code = ==→eq c code e in
            rw e (
              ih
              ∙ ap (λ vs. record_each vs (recordings_of code more))
                  (subst
                    (λ k.
                      rows_of k (record_attribute_version table c start value)
                      ≡ record_one (rows_of k table) start value)
                    same (record_own c start value table a)))
        | inr e ↦ rw e (
            ih
            ∙ ap (λ vs. record_each vs (recordings_of code more))
                (record_other c start value table a code e))
      ]

  length-record_all :
      (recordings : List (Text × ℕ × V)) (table : List (Text × AttributeVersion V))
      → IsAscending (starts table)
      → length (starts (record_all table recordings)) ≡ length recordings + length (starts table)
  unfolding record_all
  length-record_all [] table a = omega arith
  length-record_all ((c, start, value) ∷ more) table a =
      let ih =
        length-record_all more (record_attribute_version table c start value)
          (record-IsAscending c start value table a) in
      omega (arith, ih, length-record c start value table a)

  -- After at most a thousand recordings of whichever attributes into an empty table, backdated ones
  -- and corrections included, the value of an attribute as of a moment is that of the attribute's
  -- recording that starts last among those that start no later, the last recorded one of these,
  -- and there is no value where none starts by then.
  pub values_as_of-record_all :
      (moment : ℕ) (code : Text) (recordings : List (Text × ℕ × V))
      → length recordings ≤ 1000
      → values_as_of (record_all [] recordings) moment code
        ≡ value_of (last_started moment none (recordings_of code recordings))
  unfolding values_as_of load_versions starts rows_of
  values_as_of-record_all moment code recordings few =
      ap (λ t. value_as_of (rows_of code t) moment)
        (take_all max_versions_per_instance (record_all [] recordings)
          (omega (arith, length-record_all recordings [] tt, few)))
      ∙ (ap (λ vs. value_as_of vs moment) (rows_of-record_all code recordings [] tt)
          ∙ value_as_of-record_each moment (recordings_of code recordings))
