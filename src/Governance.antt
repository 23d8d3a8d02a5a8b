-- ===== src/Governance.antt =====
-- Reviewing mappings and publishing: backend/ontology_platform/governance.py. The release gates
-- read the source databases; the number of blocking gates that failed is a parameter.
pub mod Published
pub mod Rules
pub mod Derive
use aletheia_onto.Base.{
  ℕ, suc, Bool, true, false, not, Option, none, some, List, [], ◌∷◌, ◌++◌, length, keep, find, ◌==◌,
  ltb, ◌&&◌, ◌||◌, if◌then◌else◌, Text, is_set, Result, ok, err, ◌>>=◌, ◌>>◌, raise_if, or_raise,
}
use aletheia_onto.Model.{
  Model, Ontology, OntologyStatus, MappingStatus, BusinessObject, SemanticMapping, Audit, Action,
  Error, no_ontology, frozen, no_mapping, not_publishable, mappings_pending, no_confirmed_mapping,
  changed_under_way, gate_blocked, is_published, ontology_of, with_audit,
}

abbrev pub is_pending : MappingStatus → Bool
is_pending MappingStatus.pending = true
is_pending MappingStatus.confirmed = false
is_pending MappingStatus.rejected = false

abbrev pub is_confirmed_status : MappingStatus → Bool
is_confirmed_status MappingStatus.pending = false
is_confirmed_status MappingStatus.confirmed = true
is_confirmed_status MappingStatus.rejected = false

-- `status in {"draft", "reviewing"}`
abbrev pub is_publishable : OntologyStatus → Bool
is_publishable OntologyStatus.draft = true
is_publishable OntologyStatus.reviewing = true
is_publishable OntologyStatus.published = false
is_publishable OntologyStatus.deprecated = false

-- `select count(*) from semantic_mapping where ontology_id = ? and status = ...`
unfoldable pub count_mappings : (MappingStatus → Bool) → List SemanticMapping → ℕ → ℕ
count_mappings test [] ontology_id = 0
count_mappings test (x ∷ xs) ontology_id =
    let rest = count_mappings test xs ontology_id in
    if (x.ontology_id == ontology_id) && test x.status then suc rest else rest

abbrev pub pending_count : List SemanticMapping → ℕ → ℕ
pending_count = count_mappings is_pending

abbrev pub confirmed_count : List SemanticMapping → ℕ → ℕ
confirmed_count = count_mappings is_confirmed_status

abbrev pub mapping_of : Model → ℕ → Option SemanticMapping
mapping_of m mapping_id = find (λ x. x.id == mapping_id) m.mappings

-- `_append_review_note`, whose joining of two texts is a parameter.
abbrev pub append_review_note : (Text → Text → Text) → Text → Text → Text
append_review_note join evidence note = if is_set note then join evidence note else evidence

abbrev pub reviewed :
    (Text → Text → Text) → MappingStatus → Text → Text → SemanticMapping → SemanticMapping
reviewed join status reviewer note x = record x {
  status = status;
  reviewer = reviewer;
  evidence = append_review_note join x.evidence note;
}

-- `update semantic_mapping set ... where id = ?`, of the one row with that key.
unfoldable pub update_mapping :
    (SemanticMapping → SemanticMapping) → ℕ → List SemanticMapping → List SemanticMapping
update_mapping f id [] = []
update_mapping f id (x ∷ xs) = if x.id == id then f x ∷ xs else x ∷ update_mapping f id xs

unfoldable pub review_semantic_mapping :
    (Text → Text → Text) → Model → ℕ → MappingStatus → Text → Text → Result Error Model
unfolding update_mapping
review_semantic_mapping join m mapping_id status reviewer note = do
  mapping ← or_raise (mapping_of m mapping_id) no_mapping
  ontology ← or_raise (ontology_of m mapping.ontology_id) no_ontology
  raise_if (is_published ontology.status) frozen
  ok (
      with_audit
        (record { actor = reviewer; action = Action.review_semantic_mapping; target = mapping_id })
        (record m {
          mappings = update_mapping (reviewed join status reviewer note) mapping_id m.mappings;
        }))

-- The loop over the pending rows of the ontology.
unfoldable pub review_pending :
    (SemanticMapping → SemanticMapping) → ℕ → List SemanticMapping → List SemanticMapping
review_pending f ontology_id [] = []
review_pending f ontology_id (x ∷ xs) =
    (if (x.ontology_id == ontology_id) && is_pending x.status then f x else x)
    ∷ review_pending f ontology_id xs

unfoldable pub bulk_review_semantic_mappings :
    (Text → Text → Text) → Model → ℕ → MappingStatus → Text → Text → Result Error Model
unfolding review_pending
bulk_review_semantic_mappings join m ontology_id status reviewer note = do
  ontology ← or_raise (ontology_of m ontology_id) no_ontology
  raise_if (is_published ontology.status) frozen
  ok (
      with_audit
        (record {
          actor = reviewer;
          action = Action.bulk_review_semantic_mappings;
          target = ontology_id;
        })
        (record m {
          mappings = review_pending (reviewed join status reviewer note) ontology_id m.mappings;
        }))

unfoldable pub set_published : ℕ → List Ontology → List Ontology
set_published id [] = []
set_published id (o ∷ os) =
    (if o.id == id then record o { status = OntologyStatus.published } else o) ∷ set_published id os

unfoldable pub confirm_objects : ℕ → List BusinessObject → List BusinessObject
confirm_objects id [] = []
confirm_objects id (o ∷ os) =
    (if o.ontology_id == id then record o { is_confirmed = true } else o) ∷ confirm_objects id os

-- The first connection: true if the version is already published.
unfoldable pub check_publishable : Model → ℕ → Result Error Bool
check_publishable m ontology_id = do
  ontology ← or_raise (ontology_of m ontology_id) no_ontology
  if is_published ontology.status then ok true else (do
    raise_if (not (is_publishable ontology.status)) not_publishable
    raise_if (ltb 0 (pending_count m.mappings ontology_id)) mappings_pending
    raise_if (confirmed_count m.mappings ontology_id == 0) no_confirmed_mapping
    ok false)

-- The writing transaction.
unfoldable pub write_published : Model → ℕ → Text → Result Error Model
unfolding set_published confirm_objects
write_published m ontology_id publisher = do
  reread ← or_raise (ontology_of m ontology_id) no_ontology
  if is_published reread.status then ok m else (do
    raise_if
        (ltb 0 (pending_count m.mappings ontology_id)
          || (confirmed_count m.mappings ontology_id == 0))
        changed_under_way
    ok (
        with_audit
          (record { actor = publisher; action = Action.publish_ontology; target = ontology_id })
          (record m {
            ontologies = set_published ontology_id m.ontologies;
            objects = confirm_objects ontology_id m.objects;
          })))

-- `publish_ontology`: `seen` is what the first connection reads and `m` what the writing
-- transaction finds; between the two the gates are assessed and others may write.
unfoldable pub publish_ontology : Model → ℕ → Bool → ℕ → Text → Model → Result Error Model
unfolding check_publishable write_published
publish_ontology seen blockers force ontology_id publisher m = do
  already ← check_publishable seen ontology_id
  if already then ok m else (do
    raise_if (ltb 0 blockers && not force) (gate_blocked blockers)
    write_published m ontology_id publisher)
