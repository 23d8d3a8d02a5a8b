-- ===== src/Model.antt =====
-- The tables of the platform database that hold the semantic model, as
-- backend/ontology_platform/database.py declares them, less the columns that no modelled operation
-- reads or writes. Codes, names and dates are texts; a text column that is null or empty is 0
-- where the code does not tell the two apart.
use aletheia_onto.Base.{ℕ, Bool, true, false, Option, List, ◌∷◌, Text, find, ◌==◌, ◌&&◌}

pub data OntologyStatus : Type 0 where
  draft reviewing published deprecated : OntologyStatus

pub data MappingStatus : Type 0 where
  pending confirmed rejected : MappingStatus

-- Only the toggle of a status checks it: the other writes store any text that they are sent.
pub data RuleStatus : Type 0 where
  draft published disabled : RuleStatus
  other : Text → RuleStatus

pub data Severity : Type 0 where
  info warning blocking : Severity

pub record Ontology : Type 0 where
  pub id : ℕ
  pub name : Text
  pub domain : Text
  pub version : Text
  pub status : OntologyStatus

-- `is_confirmed` is the object's `status`: `draft` until its ontology is published.
pub record BusinessObject : Type 0 where
  pub id : ℕ
  pub ontology_id : ℕ
  pub code : Text
  pub name : Text
  pub parent_object_code : Text
  pub is_confirmed : Bool

pub record BusinessAttribute : Type 0 where
  pub object_id : ℕ
  pub code : Text
  pub required : Bool

-- A rule with its columns; `depends_on` is the list that the stored text parses to.
pub record BusinessRule : Type 0 where
  pub id : ℕ
  pub ontology_id : ℕ
  pub code : Text
  pub name : Text
  pub rule_type : Text
  pub scope_object_code : Text
  pub expression : Text
  pub severity : Severity
  pub status : RuleStatus
  pub priority : ℕ
  pub effective_start : Option Text
  pub effective_end : Option Text
  pub depends_on : List Text
  pub overrides : Text

pub record SemanticMapping : Type 0 where
  pub id : ℕ
  pub ontology_id : ℕ
  pub target_ref : Text
  pub status : MappingStatus
  pub evidence : Text
  pub reviewer : Text

pub data Action : Type 0 where
  declare_subtype publish_ontology derive_ontology_version : Action
  review_semantic_mapping bulk_review_semantic_mappings : Action
  update_business_rule delete_business_rule toggle_business_rule_status upsert_business_rule :
      Action

-- An entry of `audit_log`: who did what to which row.
pub record Audit : Type 0 where
  pub actor : Text
  pub action : Action
  pub target : ℕ

pub record Model : Type 0 where
  pub ontologies : List Ontology
  pub objects : List BusinessObject
  pub attributes : List BusinessAttribute
  pub rules : List BusinessRule
  pub mappings : List SemanticMapping
  pub audit_log : List Audit

-- The reasons for which an operation raises.
pub data Error : Type 0 where
  self_subtype no_ontology frozen no_object too_deep : Error
  cycle : List Text → Error
  no_mapping not_publishable mappings_pending no_confirmed_mapping changed_under_way : Error
  gate_blocked : ℕ → Error
  not_published version_exists : Error
  invalid_rule invalid_status duplicate_code no_rule no_scope : Error
  overrides_itself no_override_target foreign_override : Error

abbrev pub is_published : OntologyStatus → Bool
is_published OntologyStatus.published = true
is_published _ = false

-- `select * from ontology where id = ?`
abbrev pub ontology_of : Model → ℕ → Option Ontology
ontology_of m ontology_id = find (λ o. o.id == ontology_id) m.ontologies

abbrev pub is_object : ℕ → Text → BusinessObject → Bool
is_object ontology_id code o = (o.ontology_id == ontology_id) && (o.code == code)

-- `select ... from business_object where ontology_id = ? and code = ?`
abbrev pub object_of : List BusinessObject → ℕ → Text → Option BusinessObject
object_of objects ontology_id code = find (is_object ontology_id code) objects

-- An insertion into `audit_log`.
abbrev pub with_audit : Audit → Model → Model
with_audit a m = record m { audit_log = a ∷ m.audit_log }
