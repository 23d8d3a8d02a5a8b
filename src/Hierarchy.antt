-- ===== src/Hierarchy.antt =====
-- Subtypes: backend/ontology_platform/type_hierarchy.py.
pub mod Chain
pub mod Cycle
pub mod Expand
use aletheia_onto.Base.{
  ℕ, zero, suc, ◌+◌, Bool, true, false, not, Option, none, some, List, [], ◌∷◌, ◌++◌, map, ◌==◌,
  ◌&&◌, ◌||◌, if◌then◌else◌, Text, is_set, contains, keep, find, Result, ok, err, ◌>>=◌, ◌>>◌,
  raise_if, or_raise, Dict, lookup, insert,
}
use aletheia_onto.Model.{
  Model, BusinessObject, BusinessAttribute, BusinessRule, Audit, Action, Error, self_subtype,
  no_ontology, frozen, no_object, too_deep, cycle, is_published, ontology_of, is_object, object_of,
  with_audit,
}

abbrev pub max_hierarchy_depth : ℕ
max_hierarchy_depth = 16

-- `(row["parent_object_code"] or "") if row is not None else ""`
unfoldable pub parent_code : List BusinessObject → ℕ → Text → Text
parent_code objects ontology_id code = elim (object_of objects ontology_id code) [
  | none ↦ 0
  | some o ↦ o.parent_object_code
]

-- The loop of `_refuse_cycle`; `rounds` are those left, `chain` what it has seen, nearest first.
unfoldable pub walk_up : (Text → Text) → Text → ℕ → Text → List Text → Result Error (Unit {0})
walk_up parent object_code zero current chain = err too_deep
walk_up parent object_code (suc rounds) current chain =
    let above = parent current in
    let next = walk_up parent object_code rounds above (chain ++ above ∷ []) in
    if not (is_set above)
    then ok tt
    else if above == object_code
    then err (cycle (object_code ∷ chain ++ object_code ∷ []))
    else next

unfoldable pub refuse_cycle : List BusinessObject → ℕ → Text → Text → Result Error (Unit {0})
unfolding walk_up
refuse_cycle objects ontology_id object_code parent_object_code =
    walk_up (parent_code objects ontology_id) object_code max_hierarchy_depth parent_object_code
      (parent_object_code ∷ [])

-- `update business_object set parent_object_code = ? where id = ?`
unfoldable pub set_parent : ℕ → Text → List BusinessObject → List BusinessObject
set_parent id parent [] = []
set_parent id parent (o ∷ objects) =
    (if o.id == id then record o { parent_object_code = parent } else o)
    ∷ set_parent id parent objects

-- The checks on a parent that is named.
unfoldable pub check_parent : List BusinessObject → ℕ → Text → Text → Result Error (Unit {0})
check_parent objects ontology_id object_code parent =
    if is_set parent
    then (or_raise (object_of objects ontology_id parent) no_object >>= λ _.
        refuse_cycle objects ontology_id object_code parent)
    else ok tt

unfoldable pub declare_subtype : Model → ℕ → Text → Text → Text → Result Error Model
unfolding check_parent
declare_subtype m ontology_id object_code parent actor = do
  raise_if (object_code == parent) self_subtype
  ontology ← or_raise (ontology_of m ontology_id) no_ontology
  raise_if (is_published ontology.status) frozen
  child ← or_raise (object_of m.objects ontology_id object_code) no_object
  check_parent m.objects ontology_id object_code parent
  ok (
      with_audit (record { actor = actor; action = Action.declare_subtype; target = object_code })
        (record m { objects = set_parent child.id parent m.objects }))

-- The loop of `ancestors_of`.
unfoldable pub climb : (Text → Text) → ℕ → Text → List Text → List Text
climb parent zero current seen = []
climb parent (suc rounds) current seen =
    let above = parent current in
    let rest = climb parent rounds above (above ∷ seen) in
    if not (is_set above) || contains above seen then [] else above ∷ rest

unfoldable pub ancestors_of : List BusinessObject → ℕ → Text → List Text
unfolding climb
ancestors_of objects ontology_id object_code =
    climb (parent_code objects ontology_id) max_hierarchy_depth object_code (object_code ∷ [])

unfoldable pub inherited_rule_scopes : List BusinessObject → ℕ → Text → List Text
inherited_rule_scopes objects ontology_id object_code =
    object_code ∷ ancestors_of objects ontology_id object_code
