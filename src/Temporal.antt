-- ===== src/Temporal.antt =====
-- The versions of the attributes of one instance: backend/ontology_platform/temporal.py. Instants
-- are numbers in the order of their normalised texts. The table is kept in the order in which
-- `load_versions` reads it, by `valid_from` and then by id, so that a new row, whose id is the
-- largest, goes behind the rows that start no later. The audit row of a recording is left out.
pub mod Latest
pub mod Record
pub mod History
pub mod Rows
pub mod Instance
use aletheia_onto.Base.{
  ℕ, Bool, true, false, Option, none, some, List, [], ◌∷◌, leb, ltb, ◌&&◌, if◌then◌else◌, Text,
  ◌==◌, take,
}

pub record AttributeVersion (V : Type 0) : Type 0 where
  pub value : V
  pub valid_from : ℕ
  pub valid_to : Option ℕ

-- Whether a window that is open or ends at an instant goes beyond another.
abbrev pub lasts : Option ℕ → ℕ → Bool
lasts none instant = true
lasts (some end) instant = ltb instant end

module _ {V : Type 0} where
  unfoldable pub covers : AttributeVersion V → ℕ → Bool
  covers v instant = if ltb instant v.valid_from then false else lasts v.valid_to instant

  -- The row that the query for the covering version returns first: the last one that covers.
  unfoldable pub covering : ℕ → List (AttributeVersion V) → Option (AttributeVersion V)
  unfolding covers
  covering instant [] = none
  covering instant (v ∷ versions) = elim (covering instant versions) [
    | none ↦ if covers v instant then some v else none
    | some w ↦ some w
  ]

  -- The answer of `values_as_of` for the rows of one attribute: a later row that covers the moment overwrites an earlier one.
  unfoldable pub value_as_of : List (AttributeVersion V) → ℕ → Option V
  unfolding covering
  value_as_of versions moment = elim (covering moment versions) [
    | none ↦ none
    | some v ↦ some v.value
  ]

  -- The rows of one attribute after the update of the covering one.
  unfoldable pub close : ℕ → List (AttributeVersion V) → List (AttributeVersion V)
  unfolding covering
  close start [] = []
  close start (v ∷ versions) = elim (covering start versions) [
    | none ↦ (if covers v start then record v { valid_to = some start } else v) ∷ versions
    | some w ↦ v ∷ close start versions
  ]

  unfoldable pub insert_version :
      AttributeVersion V → List (AttributeVersion V) → List (AttributeVersion V)
  insert_version new [] = new ∷ []
  insert_version new (v ∷ versions) =
      if leb v.valid_from new.valid_from
      then v ∷ insert_version new versions
      else new ∷ v ∷ versions

  abbrev pub end_of : Option (AttributeVersion V) → Option ℕ
  end_of none = none
  end_of (some v) = v.valid_to

  -- A recording, in the rows of its attribute.
  unfoldable pub record_one : List (AttributeVersion V) → ℕ → V → List (AttributeVersion V)
  unfolding covering close insert_version
  record_one versions start value =
      insert_version
        (record { value = value; valid_from = start; valid_to = end_of (covering start versions) })
        (close start versions)

-- `MAX_VERSIONS_PER_INSTANCE`
abbrev pub max_versions_per_instance : ℕ
max_versions_per_instance = 1000

module _ {V : Type 0} where
  -- `where attribute_code = ?`
  unfoldable pub rows_of : Text → List (Text × AttributeVersion V) → List (AttributeVersion V)
  rows_of code [] = []
  rows_of code ((c, v) ∷ table) =
      let rest = rows_of code table in if c == code then v ∷ rest else rest

  -- `update ... set valid_to = ? where id = ?` of the attribute's covering row.
  unfoldable pub close_row :
      Text → ℕ → List (Text × AttributeVersion V) → List (Text × AttributeVersion V)
  unfolding covering rows_of
  close_row code start [] = []
  close_row code start ((c, v) ∷ table) =
      let rest = (c, v) ∷ close_row code start table in
      if c == code
      then elim (covering start (rows_of code table)) [
        | none ↦ (c, if covers v start then record v { valid_to = some start } else v) ∷ table
        | some w ↦ rest
      ]
      else rest

  -- `order by valid_from, id`
  unfoldable pub insert_row :
      Text
      → AttributeVersion V
      → List (Text × AttributeVersion V)
      → List (Text × AttributeVersion V)
  insert_row code new [] = (code, new) ∷ []
  insert_row code new ((c, v) ∷ table) =
      if leb v.valid_from new.valid_from
      then (c, v) ∷ insert_row code new table
      else (code, new) ∷ (c, v) ∷ table

  unfoldable pub record_attribute_version :
      List (Text × AttributeVersion V) → Text → ℕ → V → List (Text × AttributeVersion V)
  unfolding covering rows_of close_row insert_row
  record_attribute_version table code start value =
      insert_row code
        (record {
          value = value;
          valid_from = start;
          valid_to = end_of (covering start (rows_of code table));
        })
        (close_row code start table)

  -- The rows of all attributes, the oldest first, cut.
  unfoldable pub load_versions : List (Text × AttributeVersion V) → List (Text × AttributeVersion V)
  load_versions table = take max_versions_per_instance table

  -- The entry of the attribute in the dict of `values_as_of`.
  unfoldable pub values_as_of : List (Text × AttributeVersion V) → ℕ → Text → Option V
  unfolding value_as_of load_versions rows_of
  values_as_of table moment code = value_as_of (rows_of code (load_versions table)) moment
