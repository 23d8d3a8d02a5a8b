-- ===== src/Kernel/Order.antt =====
-- `order_rules_by_dependency` of backend/ontology_platform/semantic_kernel.py. The stored list of
-- dependencies is parsed: a rule's `depends_on` is what `parse_depends_on` returns.
pub mod Respect
pub mod Acyclic
use aletheia_onto.Base.{
  ℕ, zero, suc, Bool, true, false, not, ◌&&◌, List, [], ◌∷◌, ◌++◌, map, length, keep, contains,
  if◌then◌else◌, ◌==◌, Text,
}
use aletheia_onto.Model.{BusinessRule}

abbrev pub codes : List BusinessRule → List Text
codes rules = map (λ r. r.code) rules

-- The dependencies that hold a rule back: known here, not placed, and not the rule itself.
unfoldable pub pending : List Text → List Text → BusinessRule → List Text
pending known placed rule =
    keep (λ c. contains c known && (not (contains c placed) && not (c == rule.code)))
      rule.depends_on

abbrev pub is_empty {ℓ} : {A : Type ℓ} → List A → Bool
is_empty [] = true
is_empty (x ∷ xs) = false

-- What one round of the loop does with the remaining rules.
pub record Round : Type 0 where
  pub ordered : List BusinessRule
  pub placed : List Text
  pub deferred : List BusinessRule

unfoldable pub round : List Text → List BusinessRule → List Text → Round
round known [] placed = record { ordered = []; placed = placed; deferred = [] }
round known (rule ∷ remaining) placed =
    let ready = is_empty (pending known placed rule) in
    let rest = round known remaining (if ready then rule.code ∷ placed else placed) in
    if ready
    then record rest { ordered = rule ∷ rest.ordered }
    else record rest { deferred = rule ∷ rest.deferred }

-- `while remaining`, on fuel; a round without progress ends it.
unfoldable pub order_from : ℕ → List Text → List BusinessRule → List Text → List BusinessRule
order_from zero known remaining placed = remaining
order_from (suc fuel) known remaining placed =
    let r = round known remaining placed in
    let rest = order_from fuel known r.deferred r.placed in
    if is_empty r.ordered then r.deferred else r.ordered ++ rest

-- Every round but the last places a rule, so there are no more rounds than rules.
unfoldable pub order_rules_by_dependency : List BusinessRule → List BusinessRule
unfolding order_from
order_rules_by_dependency rules = order_from (length rules) (codes rules) rules []
