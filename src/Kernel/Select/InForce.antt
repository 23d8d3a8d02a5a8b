-- ===== src/Kernel/Select/InForce.antt =====
-- No blocking rule in force is passed over: `assess_instance` of
-- backend/ontology_platform/semantic_kernel.py.
use mathlib.Core.Logic.{∥∥₁_elim}
use mathlib.Core.List.{Mem, Mem-prop, mem-cons_self, mem-cons_of_mem, eq-or-mem_of_mem-cons, Perm}
use mathlib.Core.List.Perm
use aletheia_onto.Base.{
  ℕ, Text, ◌≡◌, refl, subst, Bool, true, false, Option, List, [], ◌∷◌, keep, any, Bool-cases, inl,
  inr, ◌∙◌,
}
use aletheia_onto.Model.{Model, BusinessRule}
use aletheia_onto.Hierarchy.{inherited_rule_scopes}
use aletheia_onto.Hierarchy.Expand.{expand, rule_declarations}
use aletheia_onto.Hierarchy.Expand.Rules.{has_code, declares, overrides, expand_rule}
use aletheia_onto.Kernel.Verdict.{blocked, is_blocking, decision_passed}
use aletheia_onto.Kernel.Verdict.Ordered.{assess_blocked}
use aletheia_onto.Kernel.Select.{
  is_in_force, goes_first, insert_rule, sort_rules, selected_rules, assess_instance,
}

mem-keep :
    (p : BusinessRule → Bool) (r : BusinessRule) (rules : List BusinessRule)
    → p r ≡ true
    → Mem r rules
    → Mem r (keep p rules)
mem-keep p r [] passes m = m
mem-keep p r (s ∷ rules) passes m =
    ∥∥₁_elim {P = Mem r (keep p (s ∷ rules))} (eq-or-mem_of_mem-cons m) Mem-prop (λ c. elim c [
      | inl e ↦
          let kept : p s ≡ true = subst (λ x. p x ≡ true) e passes in
          rw kept (subst (λ x. Mem r (x ∷ keep p rules)) e mem-cons_self)
      | inr n ↦ elim (Bool-cases (p s)) [
        | inl f ↦ rw f (mem-cons_of_mem s (mem-keep p r rules passes n))
        | inr f ↦ rw f (mem-keep p r rules passes n)
      ]
    ])

insert_rule-Perm :
    (r : BusinessRule) (rules : List BusinessRule) → Perm (r ∷ rules) (insert_rule r rules)
unfolding insert_rule
insert_rule-Perm r [] = Perm.refl (r ∷ [])
insert_rule-Perm r (s ∷ rules) = elim (Bool-cases (goes_first r s)) [
  | inl e ↦ rw e (Perm.refl (r ∷ s ∷ rules))
  | inr e ↦ rw e (Perm.trans (Perm.swap s r rules) (Perm.cons s (insert_rule-Perm r rules)))
]

sort_rules-Perm : (rules : List BusinessRule) → Perm rules (sort_rules rules)
unfolding sort_rules
sort_rules-Perm [] = Perm.refl []
sort_rules-Perm (r ∷ rules) =
    Perm.trans (Perm.cons r (sort_rules-Perm rules)) (insert_rule-Perm r (sort_rules rules))

-- An instance is blocked if the sandbox does not pass, or raises on, a blocking rule that is in
-- force on the day (published, within its dates and scoped to the object or one of its
-- ancestors), as long as the object or an ancestor declares a rule of this code and no rule that
-- the object or an ancestor declares overrides it.
pub assess_instance_blocked :
    (evaluate : BusinessRule → Bool × Option Text) (m : Model) (ontology_id : ℕ)
    (object_code today : Text) (rule : BusinessRule)
    → Mem rule m.rules
    → is_in_force ontology_id (inherited_rule_scopes m.objects ontology_id object_code) today rule
      ≡ true
    → any
        (λ s. declares rule.code (rule_declarations m.rules ontology_id s))
        (inherited_rule_scopes m.objects ontology_id object_code)
      ≡ true
    → any
        (λ s. overrides rule.code (rule_declarations m.rules ontology_id s))
        (inherited_rule_scopes m.objects ontology_id object_code)
      ≡ false
    → is_blocking rule.severity ≡ true
    → decision_passed (evaluate rule) ≡ false
    → (assess_instance evaluate m ontology_id object_code today).status ≡ blocked
unfolding assess_instance selected_rules
assess_instance_blocked evaluate m ontology_id object_code today rule stored force declared kept
      severe fails =
    let in_force =
      is_in_force ontology_id (inherited_rule_scopes m.objects ontology_id object_code) today in
    let queried =
      (Perm.mem_iff (sort_rules-Perm (keep in_force m.rules))).0
        (mem-keep in_force rule m.rules force stored) in
    let expanded : has_code rule.code (expand m ontology_id object_code).rules ≡ true =
      expand_rule m ontology_id object_code rule.code ∙ rw (declared, kept) refl in
    let chosen =
      mem-keep (λ r. has_code r.code (expand m ontology_id object_code).rules) rule
        (sort_rules (keep in_force m.rules)) expanded queried in
    assess_blocked evaluate rule (selected_rules m ontology_id object_code today) chosen severe
      fails
