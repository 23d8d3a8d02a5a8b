-- ===== src/Tests/Time.antt =====
-- An example for temporal.py of backend/ontology_platform.
use aletheia_onto.Base.{ℕ, ◌≡◌, arith, none, List, [], ◌∷◌, Text}
use aletheia_onto.Temporal.{values_as_of}
use aletheia_onto.Temporal.History.{last_started, value_of}
use aletheia_onto.Temporal.Instance.{record_all, recordings_of, values_as_of-record_all}

-- A value, one of another attribute, a backdated one, one that splits a window and a correction.
abbrev recordings : List (Text × ℕ × ℕ)
recordings = (7, 10, 1) ∷ (8, 12, 9) ∷ (7, 5, 2) ∷ (7, 20, 3) ∷ (7, 15, 4) ∷ (7, 15, 5) ∷ []

values_as_of-record_all_example :
    values_as_of (record_all [] recordings) 17 7
    ≡ value_of (last_started 17 none (recordings_of 7 recordings))
values_as_of-record_all_example = values_as_of-record_all 17 7 recordings (omega arith)
