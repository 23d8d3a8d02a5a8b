-- ===== src/Governance/Derive.antt =====
-- Deriving a new version of an ontology: backend/ontology_platform/governance.py. The keys that
-- the database assigns are arguments, those of copied rows as functions of the rows' old keys:
-- `object_id_map` is the dict of that name. The replacement of keys inside a text is a parameter.
pub mod Columns
pub mod Copies
use aletheia_onto.Base.{
  ℕ, Bool, true, false, not, some, none, List, [], ◌∷◌, ◌++◌, map, any, keep, find, ◌==◌, ◌&&◌,
  if◌then◌else◌, Text, Result, ok, err, ◌>>=◌, ◌>>◌, raise_if, or_raise,
}
use aletheia_onto.Model.{
  Model, Ontology, OntologyStatus, BusinessObject, BusinessAttribute, BusinessRule, SemanticMapping,
  MappingStatus, Audit, Action, Error, no_ontology, not_published, version_exists, is_published,
  ontology_of, with_audit,
}
use aletheia_onto.Governance.{append_review_note}

-- What the database and the texts contribute: the assigned keys, the join of two texts, the note
-- on the version, and the replacement of old keys in a reference.
pub record Derivation : Type 0 where
  pub new_ontology_id : ℕ
  pub object_id_map : ℕ → ℕ
  pub new_mapping_id : ℕ → ℕ
  pub new_rule_id : ℕ → ℕ
  pub join : Text → Text → Text
  pub derived_from : Text → Text
  pub remap_target : Text → Text

abbrev pub copied_object : Derivation → BusinessObject → BusinessObject
copied_object d o = record {
  id = d.object_id_map o.id;
  ontology_id = d.new_ontology_id;
  code = o.code;
  name = o.name;
  parent_object_code = 0;
  is_confirmed = false;
}

abbrev pub is_object_of : ℕ → BusinessObject → Bool
is_object_of ontology_id o = o.ontology_id == ontology_id

unfoldable pub copy_business_objects : Derivation → List BusinessObject → ℕ → List BusinessObject
copy_business_objects d objects source = map (copied_object d) (keep (is_object_of source) objects)

abbrev pub copied_attribute : Derivation → BusinessAttribute → BusinessAttribute
copied_attribute d a = record a { object_id = d.object_id_map a.object_id }

-- The inner loop, for each object of the source.
unfoldable pub copy_attributes :
    Derivation → List BusinessAttribute → List BusinessObject → List BusinessAttribute
copy_attributes d attributes [] = []
copy_attributes d attributes (o ∷ objects) =
    map (copied_attribute d) (keep (λ a. a.object_id == o.id) attributes)
    ++ copy_attributes d attributes objects

abbrev pub copied_mapping : Derivation → Text → SemanticMapping → SemanticMapping
copied_mapping d version x = record {
  id = d.new_mapping_id x.id;
  ontology_id = d.new_ontology_id;
  target_ref = d.remap_target x.target_ref;
  status = MappingStatus.pending;
  evidence = append_review_note d.join x.evidence (d.derived_from version);
  reviewer = 0;
}

abbrev pub is_mapping_of : ℕ → SemanticMapping → Bool
is_mapping_of ontology_id x = x.ontology_id == ontology_id

unfoldable pub copy_semantic_mappings :
    Derivation → List SemanticMapping → ℕ → Text → List SemanticMapping
copy_semantic_mappings d mappings source version =
    map (copied_mapping d version) (keep (is_mapping_of source) mappings)

-- The inserted row has no `overrides`, whose default is the empty text.
abbrev pub copied_rule : Derivation → BusinessRule → BusinessRule
copied_rule d r = record {
  id = d.new_rule_id r.id;
  ontology_id = d.new_ontology_id;
  code = r.code;
  name = r.name;
  rule_type = r.rule_type;
  scope_object_code = r.scope_object_code;
  expression = r.expression;
  severity = r.severity;
  status = r.status;
  priority = r.priority;
  effective_start = r.effective_start;
  effective_end = r.effective_end;
  depends_on = r.depends_on;
  overrides = 0;
}

abbrev pub is_rule_of : ℕ → BusinessRule → Bool
is_rule_of ontology_id r = r.ontology_id == ontology_id

unfoldable pub copy_business_rules : Derivation → List BusinessRule → ℕ → List BusinessRule
copy_business_rules d rules source = map (copied_rule d) (keep (is_rule_of source) rules)

abbrev pub is_version : Text → Text → Ontology → Bool
is_version name version o = (o.name == name) && (o.version == version)

abbrev pub derived_ontology : Derivation → Ontology → Text → Ontology
derived_ontology d source version = record {
  id = d.new_ontology_id;
  name = source.name;
  domain = source.domain;
  version = version;
  status = OntologyStatus.draft;
}

unfoldable pub derive_ontology_version : Derivation → Model → ℕ → Text → Text → Result Error Model
unfolding copy_business_objects copy_attributes copy_semantic_mappings copy_business_rules
derive_ontology_version d m source_id version actor = do
  source ← or_raise (ontology_of m source_id) no_ontology
  raise_if (not (is_published source.status)) not_published
  raise_if (any (is_version source.name version) m.ontologies) version_exists
  ok (
      with_audit
        (record { actor = actor; action = Action.derive_ontology_version; target = source_id })
        (record m {
          ontologies = m.ontologies ++ derived_ontology d source version ∷ [];
          objects = m.objects ++ copy_business_objects d m.objects source_id;
          attributes =
              m.attributes
              ++ copy_attributes d m.attributes (keep (is_object_of source_id) m.objects);
          mappings = m.mappings ++ copy_semantic_mappings d m.mappings source_id source.version;
          rules = m.rules ++ copy_business_rules d m.rules source_id;
        }))
