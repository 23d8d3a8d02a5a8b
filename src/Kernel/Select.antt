-- ===== src/Kernel/Select.antt =====
-- Which rules `assess_instance` of backend/ontology_platform/semantic_kernel.py evaluates, and the
-- verdict on an instance. Dates are numbers in the order of their texts.
pub mod InForce
use aletheia_onto.Base.{
  ℕ, Text, Bool, true, false, ◌&&◌, Option, none, some, List, [], ◌∷◌, keep, contains, leb, ltb,
  ◌==◌, if◌then◌else◌,
}
use aletheia_onto.Model.{Model, BusinessRule, RuleStatus, Severity, info, warning, blocking}
use aletheia_onto.Hierarchy.{inherited_rule_scopes}
use aletheia_onto.Hierarchy.Expand.{expand}
use aletheia_onto.Hierarchy.Expand.Rules.{has_code}
use aletheia_onto.Kernel.Verdict.{Decision, assess}

abbrev pub is_published_rule : RuleStatus → Bool
is_published_rule RuleStatus.published = true
is_published_rule RuleStatus.draft = false
is_published_rule RuleStatus.disabled = false
is_published_rule (RuleStatus.other _) = false

-- `effective_start is null or effective_start <= ?`
abbrev pub has_started : Option Text → Text → Bool
has_started none today = true
has_started (some start) today = leb start today

-- `effective_end is null or effective_end >= ?`
abbrev pub not_ended : Option Text → Text → Bool
not_ended none today = true
not_ended (some end) today = leb today end

unfoldable pub is_in_force : ℕ → List Text → Text → BusinessRule → Bool
is_in_force ontology_id scopes today r =
    (r.ontology_id == ontology_id)
    && (contains r.scope_object_code scopes
        && (is_published_rule r.status
            && (has_started r.effective_start today && not_ended r.effective_end today)))

-- The severities in the order of their texts.
abbrev pub severity_rank : Severity → ℕ
severity_rank blocking = 0
severity_rank info = 1
severity_rank warning = 2

-- `order by priority desc, severity, code`
unfoldable pub goes_first : BusinessRule → BusinessRule → Bool
goes_first a b =
    if ltb b.priority a.priority
    then true
    else if ltb a.priority b.priority
    then false
    else if ltb (severity_rank a.severity) (severity_rank b.severity)
    then true
    else if ltb (severity_rank b.severity) (severity_rank a.severity)
    then false
    else leb a.code b.code

unfoldable pub insert_rule : BusinessRule → List BusinessRule → List BusinessRule
insert_rule r [] = r ∷ []
insert_rule r (s ∷ rules) = if goes_first r s then r ∷ s ∷ rules else s ∷ insert_rule r rules

unfoldable pub sort_rules : List BusinessRule → List BusinessRule
unfolding insert_rule
sort_rules [] = []
sort_rules (r ∷ rules) = insert_rule r (sort_rules rules)

-- The query, less the rules that the expansion has not kept.
unfoldable pub selected_rules : Model → ℕ → Text → Text → List BusinessRule
unfolding sort_rules is_in_force
selected_rules m ontology_id object_code today =
    keep (λ r. has_code r.code (expand m ontology_id object_code).rules)
      (sort_rules (
        keep
          (is_in_force ontology_id (inherited_rule_scopes m.objects ontology_id object_code) today)
          m.rules))

unfoldable pub assess_instance :
    (BusinessRule → Bool × Option Text) → Model → ℕ → Text → Text → Decision
unfolding selected_rules
assess_instance evaluate m ontology_id object_code today =
    assess evaluate (selected_rules m ontology_id object_code today)
