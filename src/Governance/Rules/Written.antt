-- ===== src/Governance/Rules/Written.antt =====
-- What a rule write of backend/ontology_platform/governance.py that is accepted leaves behind.
use aletheia_onto.Base.{
  ℕ, ◌≡◌, ◌≢◌, ◌⊎◌, true, false, some, none, Option, contains, ◌==◌, ◌&&◌, Text,
}
use aletheia_onto.Model.{Model, BusinessRule, Severity}
use aletheia_onto.Hierarchy.{ancestors_of}
use aletheia_onto.Governance.Rules.{RuleWrite, severity_of, assign, rule_of_code, blank_rule}

-- The row that a write goes to: the one with the code, or else a new one.
abbrev pub row_or_blank : Option BusinessRule → BusinessRule → BusinessRule
row_or_blank none new = new
row_or_blank (some r) new = r

-- The overridden rule is another one of the ontology, of an ancestor of the object.
abbrev pub MayOverride : Model → ℕ → RuleWrite → Text → Type 0
MayOverride m ontology_id w overrides =
    (overrides ≢ w.code)
    × (target : BusinessRule) × (rule_of_code m.rules ontology_id overrides ≡ some target)
    × (contains target.scope_object_code (ancestors_of m.objects ontology_id w.scope_object_code)
        ≡ true)

-- The rules after an accepted write, and what was checked of the overridden one.
abbrev pub Written : ℕ → Model → ℕ → RuleWrite → Text → Model → Type 0
Written new_id m ontology_id w overrides m' =
    ((severity : Severity) × (severity_of w.severity ≡ some severity)
      × (rule_of_code m'.rules ontology_id w.code
          ≡ some
              (record (assign w severity (
                row_or_blank (rule_of_code m.rules ontology_id w.code)
                  (blank_rule new_id ontology_id w.code))) { overrides = overrides })))
    × ((o c : ℕ)
        → ((ontology_id == o) && (w.code == c)) ≡ false
        → rule_of_code m'.rules o c ≡ rule_of_code m.rules o c)
    × ((overrides ≡ 0) ⊎ MayOverride m ontology_id w overrides)
