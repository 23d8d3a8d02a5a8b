-- ===== src/Governance/Rules/Frozen.antt =====
-- What publication freezes: the rules of a published ontology under the writes of
-- backend/ontology_platform/governance.py.
use mathlib.Core.List.{append-nil}
use aletheia_onto.Base.{
  ℕ, ◌≡◌, refl, ◌∙◌, ap, Bool, false, not, some, none, List, [], ◌∷◌, ◌++◌, map, arith, any, keep,
  find, ◌==◌, ==→eq, Text, ok, raise_if_returned, or_raise_returned, bind_returned, Bool-cases, inl,
  inr, keep-append, keep_none,
}
use aletheia_onto.Model.{
  Model, Ontology, BusinessRule, RuleStatus, is_published, ontology_of, object_of,
}
use aletheia_onto.Governance.Published.{other_ontology}
use aletheia_onto.Governance.Derive.{
  Derivation, is_rule_of, copied_rule, copy_business_rules, is_version, derived_ontology,
  derive_ontology_version,
}
use aletheia_onto.Governance.Rules.{
  RuleWrite, assign, is_row, is_taken, is_valid_status, validate_rule_write, update_rules,
  delete_rules, put_rule, blank_rule, check_override, update_business_rule, delete_business_rule,
  toggle_business_rule_status, upsert_business_rule,
}
use aletheia_onto.Governance.Rules.Content.{
  without_status, content, IsPublished, Keeps, content-update_rules, content-delete_rules,
  content-put_rule, find-append_some, copied-other,
}

module _ (m : Model) (m' : Model) (id : ℕ) (published : IsPublished m id) where
  -- An ontology that may be written is another one.
  not_published :
      (ontology_id : ℕ) (p : Ontology)
      → ontology_of m ontology_id ≡ some p
      → is_published p.status ≡ false
      → (ontology_id == id) ≡ false
  not_published ontology_id p its mutable =
      let (o, found, is) = published in other_ontology m ontology_id id p o its found mutable is

  update_business_rule-Keeps :
      (is_valid : Text → Bool) (ontology_id rule_id : ℕ) (w : RuleWrite) (actor : Text)
      → update_business_rule is_valid m ontology_id rule_id w actor ≡ ok m'
      → Keeps id m m'
  unfolding update_business_rule
  update_business_rule-Keeps is_valid ontology_id rule_id w actor h =
      let (severity, validated, h₁) = bind_returned (validate_rule_write is_valid w) _ m' h in
      let (p, its, h₂) = or_raise_returned (ontology_of m ontology_id) _ _ m' h₁ in
      let (mutable, h₃) = raise_if_returned (is_published p.status) _ _ m' h₂ in
      let (r, there, h₄) =
        or_raise_returned (find (is_row ontology_id rule_id) m.rules) _ _ m' h₃ in
      let (s, scope, h₅) =
        or_raise_returned (object_of m.objects ontology_id w.scope_object_code) _ _ m' h₄ in
      let (free, h₆) =
        raise_if_returned (any (is_taken ontology_id rule_id w.code) m.rules) _ _ m' h₅ in
      let f = λ (r : BusinessRule). record (assign w severity r) { code = w.code } in
      let other = not_published ontology_id p its mutable in
      let os : m'.ontologies ≡ m.ontologies = ground (arith, h₆) in
      let rs : m'.rules ≡ update_rules (is_row ontology_id rule_id) f m.rules =
        ground (arith, h₆) in
      (
        rw os published,
        rw rs (
            content-update_rules id (is_row ontology_id rule_id) f (λ r. refl) m.rules
              (λ r mine row. absurd (ground (arith, mine, row, other)))),
      )

  delete_business_rule-Keeps :
      (ontology_id rule_id : ℕ) (actor : Text)
      → delete_business_rule m ontology_id rule_id actor ≡ ok m'
      → Keeps id m m'
  unfolding delete_business_rule
  delete_business_rule-Keeps ontology_id rule_id actor h =
      let (p, its, h₂) = or_raise_returned (ontology_of m ontology_id) _ _ m' h in
      let (mutable, h₃) = raise_if_returned (is_published p.status) _ _ m' h₂ in
      let (r, there, h₄) =
        or_raise_returned (find (is_row ontology_id rule_id) m.rules) _ _ m' h₃ in
      let other = not_published ontology_id p its mutable in
      let os : m'.ontologies ≡ m.ontologies = ground (arith, h₄) in
      let rs : m'.rules ≡ delete_rules (is_row ontology_id rule_id) m.rules = ground (arith, h₄) in
      (
        rw os published,
        rw rs (
            content-delete_rules id (is_row ontology_id rule_id) m.rules
              (λ r row. ground (arith, row, other))),
      )

  toggle_business_rule_status-Keeps :
      (ontology_id rule_id : ℕ) (status : RuleStatus) (actor : Text)
      → toggle_business_rule_status m ontology_id rule_id status actor ≡ ok m'
      → Keeps id m m'
  unfolding toggle_business_rule_status
  toggle_business_rule_status-Keeps ontology_id rule_id status actor h =
      let (known, h₁) = raise_if_returned (not (is_valid_status status)) _ _ m' h in
      let (p, its, h₂) = or_raise_returned (ontology_of m ontology_id) _ _ m' h₁ in
      let (r, there, h₄) =
        or_raise_returned (find (is_row ontology_id rule_id) m.rules) _ _ m' h₂ in
      let f = λ (r : BusinessRule). record r { status = status } in
      let os : m'.ontologies ≡ m.ontologies = ground (arith, h₄) in
      let rs : m'.rules ≡ update_rules (is_row ontology_id rule_id) f m.rules =
        ground (arith, h₄) in
      (
        rw os published,
        rw rs (
            content-update_rules id (is_row ontology_id rule_id) f (λ r. refl) m.rules
              (λ r mine row. refl)),
      )

  upsert_business_rule-Keeps :
      (is_valid : Text → Bool) (new_id ontology_id : ℕ) (w : RuleWrite) (overrides actor : Text)
      → upsert_business_rule is_valid new_id m ontology_id w overrides actor ≡ ok m'
      → Keeps id m m'
  unfolding upsert_business_rule
  upsert_business_rule-Keeps is_valid new_id ontology_id w overrides actor h =
      let (severity, validated, h₁) = bind_returned (validate_rule_write is_valid w) _ m' h in
      let (p, its, h₂) = or_raise_returned (ontology_of m ontology_id) _ _ m' h₁ in
      let (mutable, h₃) = raise_if_returned (is_published p.status) _ _ m' h₂ in
      let (s, scope, h₅) =
        or_raise_returned (object_of m.objects ontology_id w.scope_object_code) _ _ m' h₃ in
      let (u, checked, h₆) =
        bind_returned
          (check_override m.objects m.rules ontology_id w.code w.scope_object_code overrides) _ m'
          h₅ in
      let f = λ (r : BusinessRule). record (assign w severity r) { overrides = overrides } in
      let new = blank_rule new_id ontology_id w.code in
      let os : m'.ontologies ≡ m.ontologies = ground (arith, h₆) in
      let rs : m'.rules ≡ put_rule f new m.rules = ground (arith, h₆) in
      (
        rw os published,
        rw rs (
            content-put_rule id f new m.rules (λ r. refl)
              (not_published ontology_id p its mutable)),
      )

  fresh_other : (new : ℕ) → ontology_of m new ≡ none → (new == id) ≡ false
  fresh_other new unused = elim (Bool-cases (new == id)) [
    | inr e ↦ e
    | inl e ↦
        let (o, found, is) = published in
        absurd (ground (arith, unused, found, ap (λ n. ontology_of m n) (==→eq new id e)))
  ]

  derive_ontology_version-Keeps :
      (d : Derivation) (source_id : ℕ) (version actor : Text)
      → ontology_of m d.new_ontology_id ≡ none
      → derive_ontology_version d m source_id version actor ≡ ok m'
      → Keeps id m m'
  unfolding derive_ontology_version copy_business_rules content
  derive_ontology_version-Keeps d source_id version actor unused h =
      let (source, its, h₁) = or_raise_returned (ontology_of m source_id) _ _ m' h in
      let (is_source, h₂) = raise_if_returned (not (is_published source.status)) _ _ m' h₁ in
      let taken = any (is_version source.name version) m.ontologies in
      let (unique, h₃) = raise_if_returned taken _ _ m' h₂ in
      let (o, found, is) = published in
      let added = map (copied_rule d) (keep (is_rule_of source_id) m.rules) in
      let other =
        copied-other d id (keep (is_rule_of source_id) m.rules)
          (fresh_other d.new_ontology_id unused) in
      let os : m'.ontologies ≡ m.ontologies ++ derived_ontology d source version ∷ [] =
        ground (arith, h₃) in
      let stays : ontology_of m' id ≡ some o =
        ap (λ (os : List Ontology). find (λ o. o.id == id) os) os
        ∙ find-append_some (λ o. o.id == id) m.ontologies _ o found in
      let rs : m'.rules ≡ m.rules ++ added = ground (arith, h₃) in
      (
        (o, stays, is),
        rw rs (
            ap (map without_status) (
              keep-append (is_rule_of id) m.rules added
              ∙ (ap (λ xs. keep (is_rule_of id) m.rules ++ xs)
                    (keep_none (is_rule_of id) added other)
                  ∙ append-nil (keep (is_rule_of id) m.rules)))),
      )

-- One committed call that writes or copies rules; a derivation is given an unused key.
pub data RuleStep : Model → Model → Type 0 where
  updated :
      {m m' : Model} (is_valid : Text → Bool) (ontology_id rule_id : ℕ) (w : RuleWrite)
      (actor : Text)
      → update_business_rule is_valid m ontology_id rule_id w actor ≡ ok m'
      → RuleStep m m'
  deleted :
      {m m' : Model} (ontology_id rule_id : ℕ) (actor : Text)
      → delete_business_rule m ontology_id rule_id actor ≡ ok m'
      → RuleStep m m'
  toggled :
      {m m' : Model} (ontology_id rule_id : ℕ) (status : RuleStatus) (actor : Text)
      → toggle_business_rule_status m ontology_id rule_id status actor ≡ ok m'
      → RuleStep m m'
  upserted :
      {m m' : Model} (is_valid : Text → Bool) (new_id ontology_id : ℕ) (w : RuleWrite)
      (overrides actor : Text)
      → upsert_business_rule is_valid new_id m ontology_id w overrides actor ≡ ok m'
      → RuleStep m m'
  derived :
      {m m' : Model} (d : Derivation) (source_id : ℕ) (version actor : Text)
      → ontology_of m d.new_ontology_id ≡ none
      → derive_ontology_version d m source_id version actor ≡ ok m'
      → RuleStep m m'

pub data RuleSteps : Model → Model → Type 0 where
  done : {m : Model} → RuleSteps m m
  next : {m n m' : Model} → RuleStep m n → RuleSteps n m' → RuleSteps m m'

RuleStep-Keeps : (m m' : Model) (id : ℕ) → RuleStep m m' → IsPublished m id → Keeps id m m'
RuleStep-Keeps m m' id (updated v o r w a h) p = update_business_rule-Keeps m m' id p v o r w a h
RuleStep-Keeps m m' id (deleted o r a h) p = delete_business_rule-Keeps m m' id p o r a h
RuleStep-Keeps m m' id (toggled o r s a h) p = toggle_business_rule_status-Keeps m m' id p o r s a h
RuleStep-Keeps m m' id (upserted v n o w x a h) p =
    upsert_business_rule-Keeps m m' id p v n o w x a h
RuleStep-Keeps m m' id (derived d s v a u h) p = derive_ontology_version-Keeps m m' id p d s v a u h

-- Whatever rules are updated, deleted, toggled and upserted and whatever versions are derived
-- under unused keys, in whatever order and for whatever ontologies: a published ontology stays
-- published, and its rules stay the same rows in the same order in every column but the status.
pub RuleSteps-Keeps : (m m' : Model) (id : ℕ) → RuleSteps m m' → IsPublished m id → Keeps id m m'
RuleSteps-Keeps m m' id done published = (published, refl)
RuleSteps-Keeps m m' id (next {n = n} step steps) published =
    let (still, same) = RuleStep-Keeps m n id step published in
    let (after, rest) = RuleSteps-Keeps n m' id steps still in (after, rest ∙ same)
