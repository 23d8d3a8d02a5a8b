-- ===== src/Governance/Rules/Content.antt =====
-- The rules of an ontology as the writes of backend/ontology_platform/governance.py leave them.
use aletheia_onto.Base.{
  ℕ, ◌≡◌, refl, ◌∙◌, ap, Bool, true, false, some, List, [], ◌∷◌, ◌++◌, map, arith, All, keep, find,
  ◌==◌, Bool-cases, inl, inr,
}
use aletheia_onto.Model.{Model, Ontology, BusinessRule, RuleStatus, is_published, ontology_of}
use aletheia_onto.Governance.Derive.{Derivation, is_rule_of, copied_rule}
use aletheia_onto.Governance.Rules.{is_coded, update_rules, delete_rules, put_rule}

-- A rule less its status.
abbrev pub without_status : BusinessRule → BusinessRule
without_status r = record r { status = RuleStatus.draft }

-- The rules of an ontology less their status, in the order of the rows.
unfoldable pub content : List BusinessRule → ℕ → List BusinessRule
content rules id = map without_status (keep (is_rule_of id) rules)

abbrev pub IsPublished : Model → ℕ → Type 0
IsPublished m id = (o : Ontology) × (ontology_of m id ≡ some o) × (is_published o.status ≡ true)

module _ (id : ℕ) (test : BusinessRule → Bool) (f : BusinessRule → BusinessRule)
    (same : (r : BusinessRule) → (f r).ontology_id ≡ r.ontology_id) where
  -- An update that changes only the status, or only rows of other ontologies.
  pub content-update_rules :
      (rules : List BusinessRule)
      → ((r : BusinessRule)
          → is_rule_of id r ≡ true
          → test r ≡ true
          → without_status (f r) ≡ without_status r)
      → content (update_rules test f rules) id ≡ content rules id
  unfolding content update_rules
  content-update_rules [] h = refl
  content-update_rules (r ∷ rules) h =
      let ih = content-update_rules rules h in
      elim (Bool-cases (test r)) [
        | inr e ↦ rw e (ground (arith, ih))
        | inl e ↦ elim (Bool-cases (is_rule_of id r)) [
          | inr g ↦
              let moved : is_rule_of id (f r) ≡ false = ap (λ o. o == id) (same r) ∙ g in
              rw (e, moved, g) ih
          | inl g ↦
              let moved : is_rule_of id (f r) ≡ true = ap (λ o. o == id) (same r) ∙ g in
              rw (e, moved, g)
                (ap (λ x. x ∷ content (update_rules test f rules) id) (h r g e)
                  ∙ ap (λ rest. without_status r ∷ rest) ih)
        ]
      ]

pub content-delete_rules :
    (id : ℕ) (test : BusinessRule → Bool) (rules : List BusinessRule)
    → ((r : BusinessRule) → test r ≡ true → is_rule_of id r ≡ false)
    → content (delete_rules test rules) id ≡ content rules id
unfolding content delete_rules
content-delete_rules id test [] h = refl
content-delete_rules id test (r ∷ rules) h =
    let ih = content-delete_rules id test rules h in
    elim (Bool-cases (test r)) [ inl e ↦ rw (e, h r e) ih | inr e ↦ rw e (ground (arith, ih)) ]

pub content-put_rule :
    (id : ℕ) (f : BusinessRule → BusinessRule) (new : BusinessRule) (rules : List BusinessRule)
    → ((r : BusinessRule) → (f r).ontology_id ≡ r.ontology_id)
    → (new.ontology_id == id) ≡ false
    → content (put_rule f new rules) id ≡ content rules id
unfolding content put_rule
content-put_rule id f new [] same other = rw (same new, other) refl
content-put_rule id f new (r ∷ rules) same other =
    let ih = content-put_rule id f new rules same other in
    elim (Bool-cases (is_coded new.ontology_id new.code r)) [
      | inl e ↦
          let out : (r.ontology_id == id) ≡ false = ground (arith, e, other) in
          rw (e, same r, out) refl
      | inr e ↦ rw e (ground (arith, ih))
    ]

pub find-append_some {ℓ} :
    {A : Type ℓ} (p : A → Bool) (xs ys : List A) (x : A)
    → find p xs ≡ some x
    → find p (xs ++ ys) ≡ some x
find-append_some p [] ys x h = absurd (ground arith)
find-append_some p (y ∷ xs) ys x h = ground (arith, find-append_some p xs ys x)

-- No copied rule belongs to another ontology than the new one.
pub copied-other :
    (d : Derivation) (id : ℕ) (rules : List BusinessRule)
    → (d.new_ontology_id == id) ≡ false
    → All (λ r. is_rule_of id r ≡ false) (map (copied_rule d) rules)
copied-other d id [] other = tt
copied-other d id (r ∷ rules) other = (other, copied-other d id rules other)

-- The ontology is published as before, and its rules are the same less their status.
abbrev pub Keeps : ℕ → Model → Model → Type 0
Keeps id m m' = IsPublished m' id × (content m'.rules id ≡ content m.rules id)
