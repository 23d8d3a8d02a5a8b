-- ===== src/Governance/Rules.antt =====
-- Writing rules: backend/ontology_platform/governance.py. Whether an expression is valid is a
-- parameter, and the key of an inserted row is what the database assigns.

pub mod Written
pub mod Content
pub mod Frozen
use aletheia_onto.Base.{
  ℕ, Bool, true, false, not, Option, none, some, List, [], ◌∷◌, any, find, ◌==◌, ◌&&◌,
  if◌then◌else◌, Text, is_set, contains, Result, ok, err, ◌>>=◌, ◌>>◌, raise_if, or_raise,
}
use aletheia_onto.Model.{
  Model, BusinessRule, BusinessObject, RuleStatus, Severity, Audit, Action, Error, no_ontology,
  frozen, invalid_rule, invalid_status, duplicate_code, no_rule, no_scope, overrides_itself,
  no_override_target, foreign_override, is_published, ontology_of, object_of, with_audit,
}
use aletheia_onto.Hierarchy.{ancestors_of}

-- `VALID_RULE_TYPES`, its six texts numbered.
abbrev pub valid_rule_types : List Text
valid_rule_types = 1 ∷ 2 ∷ 3 ∷ 4 ∷ 5 ∷ 6 ∷ []

-- `VALID_RULE_SEVERITIES`, its three texts numbered.
abbrev pub severity_of : Text → Option Severity
severity_of severity =
    if severity == 1
    then some Severity.info
    else if severity == 2
    then some Severity.warning
    else if severity == 3
    then some Severity.blocking
    else none

-- `status in VALID_RULE_STATUSES`
abbrev pub is_valid_status : RuleStatus → Bool
is_valid_status RuleStatus.draft = true
is_valid_status RuleStatus.published = true
is_valid_status RuleStatus.disabled = true
is_valid_status (RuleStatus.other _) = false

-- The arguments of a write.
pub record RuleWrite : Type 0 where
  pub code : Text
  pub name : Text
  pub rule_type : Text
  pub scope_object_code : Text
  pub expression : Text
  pub severity : Text
  pub status : RuleStatus
  pub priority : ℕ
  pub effective_start : Option Text
  pub effective_end : Option Text
  pub depends_on : Option (List Text)

-- The severity that the checked text names.
unfoldable pub validate_rule_write : (Text → Bool) → RuleWrite → Result Error Severity
validate_rule_write is_valid w = do
  raise_if (not (contains w.rule_type valid_rule_types)) invalid_rule
  severity ← or_raise (severity_of w.severity) invalid_rule
  raise_if (not (is_valid w.expression)) invalid_rule
  ok severity

-- `depends_on if depends_on is not None else "[]"`
abbrev pub depends : Option (List Text) → List Text
depends none = []
depends (some codes) = codes

-- `set name = ?, ..., depends_on = ?` of both writes.
abbrev pub assign : RuleWrite → Severity → BusinessRule → BusinessRule
assign w severity r = record r {
  name = w.name;
  rule_type = w.rule_type;
  scope_object_code = w.scope_object_code;
  expression = w.expression;
  severity = severity;
  status = w.status;
  priority = w.priority;
  effective_start = w.effective_start;
  effective_end = w.effective_end;
  depends_on = depends w.depends_on;
}

-- `where id = ? and ontology_id = ?`
abbrev pub is_row : ℕ → ℕ → BusinessRule → Bool
is_row ontology_id rule_id r = (r.id == rule_id) && (r.ontology_id == ontology_id)

abbrev pub is_coded : ℕ → Text → BusinessRule → Bool
is_coded ontology_id code r = (r.ontology_id == ontology_id) && (r.code == code)

-- `select ... from business_rule where ontology_id = ? and code = ?`
abbrev pub rule_of_code : List BusinessRule → ℕ → Text → Option BusinessRule
rule_of_code rules ontology_id code = find (is_coded ontology_id code) rules

unfoldable pub update_rules :
    (BusinessRule → Bool) → (BusinessRule → BusinessRule) → List BusinessRule → List BusinessRule
update_rules test f [] = []
update_rules test f (r ∷ rules) = (if test r then f r else r) ∷ update_rules test f rules

unfoldable pub delete_rules : (BusinessRule → Bool) → List BusinessRule → List BusinessRule
delete_rules test [] = []
delete_rules test (r ∷ rules) =
    if test r then delete_rules test rules else r ∷ delete_rules test rules

-- `unique(ontology_id, code)` refuses a row that takes the code of another.
abbrev pub is_taken : ℕ → ℕ → Text → BusinessRule → Bool
is_taken ontology_id rule_id code r = is_coded ontology_id code r && not (r.id == rule_id)

unfoldable pub update_business_rule :
    (Text → Bool) → Model → ℕ → ℕ → RuleWrite → Text → Result Error Model
unfolding validate_rule_write update_rules
update_business_rule is_valid m ontology_id rule_id w actor = do
  severity ← validate_rule_write is_valid w
  ontology ← or_raise (ontology_of m ontology_id) no_ontology
  raise_if (is_published ontology.status) frozen
  existing ← or_raise (find (is_row ontology_id rule_id) m.rules) no_rule
  scope ← or_raise (object_of m.objects ontology_id w.scope_object_code) no_scope
  raise_if (any (is_taken ontology_id rule_id w.code) m.rules) duplicate_code
  ok (
      with_audit (record { actor = actor; action = Action.update_business_rule; target = rule_id })
        (record m {
          rules =
              update_rules (is_row ontology_id rule_id)
                (λ r. record (assign w severity r) { code = w.code }) m.rules;
        }))

unfoldable pub delete_business_rule : Model → ℕ → ℕ → Text → Result Error Model
unfolding delete_rules
delete_business_rule m ontology_id rule_id actor = do
  ontology ← or_raise (ontology_of m ontology_id) no_ontology
  raise_if (is_published ontology.status) frozen
  rule ← or_raise (find (is_row ontology_id rule_id) m.rules) no_rule
  ok (
      with_audit (record { actor = actor; action = Action.delete_business_rule; target = rule_id })
        (record m { rules = delete_rules (is_row ontology_id rule_id) m.rules }))

unfoldable pub toggle_business_rule_status : Model → ℕ → ℕ → RuleStatus → Text → Result Error Model
unfolding update_rules
toggle_business_rule_status m ontology_id rule_id status actor = do
  raise_if (not (is_valid_status status)) invalid_status
  ontology ← or_raise (ontology_of m ontology_id) no_ontology
  rule ← or_raise (find (is_row ontology_id rule_id) m.rules) no_rule
  ok (
      with_audit
        (record { actor = actor; action = Action.toggle_business_rule_status; target = rule_id })
        (record m {
          rules =
              update_rules (is_row ontology_id rule_id) (λ r. record r { status = status }) m.rules;
        }))

unfoldable pub validate_override :
    List BusinessObject → List BusinessRule → ℕ → Text → Text → Text → Result Error (Unit {0})
validate_override objects rules ontology_id code scope_object_code overrides = do
  raise_if (overrides == code) overrides_itself
  target ← or_raise (rule_of_code rules ontology_id overrides) no_override_target
  raise_if
      (not (contains target.scope_object_code (ancestors_of objects ontology_id scope_object_code)))
      foreign_override
  ok tt

-- `if overrides: _validate_override(...)`
unfoldable pub check_override :
    List BusinessObject → List BusinessRule → ℕ → Text → Text → Text → Result Error (Unit {0})
unfolding validate_override
check_override objects rules ontology_id code scope_object_code overrides =
    if is_set overrides
    then validate_override objects rules ontology_id code scope_object_code overrides
    else ok tt

-- `insert into business_rule ... on conflict(ontology_id, code) do update`
unfoldable pub put_rule :
    (BusinessRule → BusinessRule) → BusinessRule → List BusinessRule → List BusinessRule
put_rule f new [] = f new ∷ []
put_rule f new (r ∷ rules) =
    if is_coded new.ontology_id new.code r then f r ∷ rules else r ∷ put_rule f new rules

-- The columns that name a row, before the others are assigned.
abbrev pub blank_rule : ℕ → ℕ → Text → BusinessRule
blank_rule new_id ontology_id code = record {
  id = new_id;
  ontology_id = ontology_id;
  code = code;
  name = 0;
  rule_type = 0;
  scope_object_code = 0;
  expression = 0;
  severity = Severity.info;
  status = RuleStatus.published;
  priority = 0;
  effective_start = none;
  effective_end = none;
  depends_on = [];
  overrides = 0;
}

abbrev pub row_id : Option BusinessRule → ℕ → ℕ
row_id none new_id = new_id
row_id (some r) new_id = r.id

unfoldable pub upsert_business_rule :
    (Text → Bool) → ℕ → Model → ℕ → RuleWrite → Text → Text → Result Error Model
unfolding validate_rule_write check_override put_rule
upsert_business_rule is_valid new_id m ontology_id w overrides actor = do
  severity ← validate_rule_write is_valid w
  ontology ← or_raise (ontology_of m ontology_id) no_ontology
  raise_if (is_published ontology.status) frozen
  scope ← or_raise (object_of m.objects ontology_id w.scope_object_code) no_scope
  check_override m.objects m.rules ontology_id w.code w.scope_object_code overrides
  ok (
      with_audit
        (record {
          actor = actor;
          action = Action.upsert_business_rule;
          target = row_id (rule_of_code m.rules ontology_id w.code) new_id;
        })
        (record m {
          rules =
              put_rule (λ r. record (assign w severity r) { overrides = overrides })
                (blank_rule new_id ontology_id w.code) m.rules;
        }))
