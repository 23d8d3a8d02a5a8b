-- ===== src/Tests/Rules.antt =====
-- Examples for the rule writes and derivations of backend/ontology_platform/governance.py.
use aletheia_onto.Base.{◌+◌, ◌≡◌, refl, Bool, true, none, some, [], ◌∷◌, Text, map, Result, ok, err}
use aletheia_onto.Model.{
  Model, Ontology, OntologyStatus, RuleStatus, MappingStatus, Error, is_published, ontology_of,
  mappings_pending, foreign_override, frozen,
}
use aletheia_onto.Hierarchy.{ancestors_of, climb, parent_code}
use aletheia_onto.Governance.{publish_ontology}
use aletheia_onto.Governance.Rules.{
  RuleWrite, upsert_business_rule, validate_rule_write, check_override, validate_override, put_rule,
  update_rules, toggle_business_rule_status, update_business_rule,
}
use aletheia_onto.Governance.Rules.Written.{Written}
use aletheia_onto.Governance.Rules.Content.{Keeps}
use aletheia_onto.Governance.Rules.Frozen.{done, next, toggled, RuleSteps-Keeps}
use aletheia_onto.Governance.Derive.{
  Derivation, copy_business_objects, copy_attributes, copy_semantic_mappings, copy_business_rules,
  derive_ontology_version,
}
use aletheia_onto.Governance.Derive.Copies.{
  Copied, derive_ontology_version-Copied, derive_ontology_version-publish_ontology,
}
use aletheia_onto.Tests.Meaning.{model_with, customer, party}

-- The state after a call, or the given one if the call raises.
abbrev returned : Model → Result Error Model → Model
returned m (ok m') = m'
returned m (err e) = m

abbrev any_text : Text → Bool
any_text e = true

abbrev write : RuleWrite
write = record {
  code = 7;
  name = 7;
  rule_type = 1;
  scope_object_code = 100;
  expression = 5;
  severity = 3;
  status = RuleStatus.published;
  priority = 2;
  effective_start = none;
  effective_end = none;
  depends_on = none;
}

abbrev drafted : Model
drafted = model_with (customer ∷ party ∷ []) OntologyStatus.draft MappingStatus.pending

upserted : Model
unfolding upsert_business_rule validate_rule_write check_override validate_override put_rule
    ancestors_of climb parent_code
upserted = returned drafted (upsert_business_rule any_text 50 drafted 1 write 1 9)

-- The rule 2 is of the object itself.
own_rule_refused : upsert_business_rule any_text 50 drafted 1 write 2 9 ≡ err foreign_override
unfolding upsert_business_rule validate_rule_write check_override validate_override ancestors_of
    climb parent_code
own_rule_refused = refl

-- A status that no reader knows is stored.
unknown_status_stored :
    map
      (λ r. r.status)
      (returned drafted (
        upsert_business_rule any_text 50
          (record drafted { rules = [] })
          1
          (record write { status = RuleStatus.other 77 })
          0
          9)).rules
    ≡ RuleStatus.other 77 ∷ []
unfolding upsert_business_rule validate_rule_write check_override put_rule
unknown_status_stored = refl

abbrev released : Model
released = model_with (customer ∷ party ∷ []) OntologyStatus.published MappingStatus.confirmed

update_refused : update_business_rule any_text released 1 1 write 9 ≡ err frozen
unfolding update_business_rule validate_rule_write
update_refused = refl

disabled : Model
unfolding toggle_business_rule_status update_rules
disabled = returned released (toggle_business_rule_status released 1 1 RuleStatus.disabled 9)

RuleSteps-Keeps_example : Keeps 1 released disabled
unfolding disabled toggle_business_rule_status update_rules
RuleSteps-Keeps_example =
    RuleSteps-Keeps released disabled 1 (next (toggled 1 1 RuleStatus.disabled 9 refl) done) (
      record { id = 1; name = 1; domain = 1; version = 1; status = OntologyStatus.published },
      refl,
      refl,
    )

abbrev derivation : Derivation
derivation = record {
  new_ontology_id = 2;
  object_id_map = λ id. id + 10;
  new_mapping_id = λ id. id + 10;
  new_rule_id = λ id. id + 10;
  join = λ evidence note. evidence;
  derived_from = λ version. version;
  remap_target = λ target. target;
}

second_version : Model
unfolding derive_ontology_version copy_business_objects copy_attributes copy_semantic_mappings
    copy_business_rules
second_version = returned released (derive_ontology_version derivation released 1 2 9)

derive_ontology_version-Copied_example :
    (source : Ontology) × (ontology_of released 1 ≡ some source)
    × (is_published source.status ≡ true)
    × Copied derivation released source 2 second_version
unfolding second_version derive_ontology_version copy_business_objects copy_attributes
    copy_semantic_mappings copy_business_rules
derive_ontology_version-Copied_example =
    derive_ontology_version-Copied derivation released 1 2 9 second_version
      (refl, (refl, (refl, tt)), (refl, (refl, tt)), (refl, tt)) refl

derive_ontology_version-publish_ontology_example :
    publish_ontology second_version 0 true 2 9 second_version ≡ err mappings_pending
unfolding second_version derive_ontology_version copy_business_objects copy_attributes
    copy_semantic_mappings copy_business_rules
derive_ontology_version-publish_ontology_example =
    derive_ontology_version-publish_ontology derivation released 1 2 9 second_version 0 true 9
      second_version (refl, (refl, (refl, tt)), (refl, (refl, tt)), (refl, tt)) refl

-- The parents are lost: in the source the object 100 has the parent 200, in its copy none.
parent_lost : map (λ o. o.parent_object_code) second_version.objects ≡ 200 ∷ 0 ∷ 0 ∷ 0 ∷ []
unfolding second_version derive_ontology_version copy_business_objects copy_attributes
    copy_semantic_mappings copy_business_rules
parent_lost = refl
