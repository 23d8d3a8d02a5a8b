-- ===== src/Governance/Derive/Copies.antt =====
-- What a derived version of backend/ontology_platform/governance.py holds.
use aletheia_onto.Base.{
  ℕ, ◌≡◌, refl, sym, ◌∙◌, ap, subst, Bool, true, false, not, some, none, List, [], ◌∷◌, ◌++◌, map,
  arith, if◌then◌else◌, any, All, keep, find, length, ◌==◌, ==-refl, ltb, Text, ok, err,
  raise_if_returned, or_raise_returned, keep-append, keep-map_all, keep_none, Bool-cases, inl, inr,
}
use aletheia_onto.Model.{
  Model, Ontology, OntologyStatus, SemanticMapping, MappingStatus, Error, mappings_pending,
  no_confirmed_mapping, is_published, ontology_of,
}
use aletheia_onto.Governance.{
  count_mappings, pending_count, confirmed_count, is_pending, is_confirmed_status,
  check_publishable, publish_ontology,
}
use aletheia_onto.Governance.Derive.Columns.{
  Corresponds, Corresponds-map, IsObjectCopy, IsRuleCopy, IsMappingCopy, copied_object_columns,
  copied_rule_columns, copied_mapping_columns,
}
use aletheia_onto.Governance.Derive.{
  Derivation, copied_object, is_object_of, copy_business_objects, copied_mapping, is_mapping_of,
  copy_semantic_mappings, copied_rule, is_rule_of, copy_business_rules, is_version,
  derived_ontology, derive_ontology_version,
}

-- The assigned key of the new ontology is used by no row.
abbrev pub Fresh : ℕ → Model → Type 0
Fresh id m =
    (ontology_of m id ≡ none)
    × All (λ o. is_object_of id o ≡ false) m.objects
    × All (λ r. is_rule_of id r ≡ false) m.rules
    × All (λ x. is_mapping_of id x ≡ false) m.mappings

-- The rows of the new version are the copies of the rows of the source, in the order of these.
abbrev pub CopiedRows : Derivation → Model → Ontology → Text → Model → Type 0
CopiedRows d m source version m' =
    (ontology_of m' d.new_ontology_id ≡ some (derived_ontology d source version))
    × (keep (is_object_of d.new_ontology_id) m'.objects
        ≡ map (copied_object d) (keep (is_object_of source.id) m.objects))
    × (keep (is_rule_of d.new_ontology_id) m'.rules
        ≡ map (copied_rule d) (keep (is_rule_of source.id) m.rules))
    × (keep (is_mapping_of d.new_ontology_id) m'.mappings
        ≡ map (copied_mapping d source.version) (keep (is_mapping_of source.id) m.mappings))

keep_added {ℓ κ} :
    {A : Type ℓ} {B : Type κ} (p : A → Bool) (f : B → A) (old : List A) (new : List B)
    → All (λ x. p x ≡ false) old
    → ((x : B) → p (f x) ≡ true)
    → keep p (old ++ map f new) ≡ map f new
keep_added p f old new none_old all_new =
    keep-append p old (map f new)
    ∙ (ap (λ xs. xs ++ keep p (map f new)) (keep_none p old none_old)
        ∙ keep-map_all p f new all_new)

find-snoc {ℓ} :
    {A : Type ℓ} (p : A → Bool) (x : A) (xs : List A)
    → find p xs ≡ none
    → p x ≡ true
    → find p (xs ++ x ∷ []) ≡ some x
find-snoc p x [] e t = rw t refl
find-snoc p x (y ∷ ys) e t = ground (arith, find-snoc p x ys)

find-id :
    (id : ℕ) (os : List Ontology) (o : Ontology) → find (λ x. x.id == id) os ≡ some o → o.id ≡ id
find-id id [] o h = absurd (ground arith)
find-id id (x ∷ os) o h = ground (arith, find-id id os o)

module _ (d : Derivation) (m : Model) (source_id : ℕ) (version actor : Text) (m' : Model) where
  derive_ontology_version-CopiedRows :
      Fresh d.new_ontology_id m
      → derive_ontology_version d m source_id version actor ≡ ok m'
      → (source : Ontology) × (ontology_of m source_id ≡ some source)
        × (is_published source.status ≡ true)
        × CopiedRows d m source version m'
  unfolding derive_ontology_version copy_business_objects copy_business_rules copy_semantic_mappings
  derive_ontology_version-CopiedRows fresh h =
      let (source, found, h₁) = or_raise_returned (ontology_of m source_id) _ _ m' h in
      let (published, h₂) = raise_if_returned (not (is_published source.status)) _ _ m' h₁ in
      let taken = any (is_version source.name version) m.ontologies in
      let (unique, h₃) = raise_if_returned taken _ _ m' h₂ in
      let (unused, no_objects, no_rules, no_mappings) = fresh in
      let new = d.new_ontology_id in
      let key : source_id ≡ source.id =
        ground (arith, find-id source_id m.ontologies source found) in
      let os : m'.objects ≡ m.objects ++ copy_business_objects d m.objects source_id =
        ground (arith, h₃) in
      let rs : m'.rules ≡ m.rules ++ copy_business_rules d m.rules source_id = ground (arith, h₃) in
      let xs : m'.mappings
          ≡ m.mappings ++ copy_semantic_mappings d m.mappings source_id source.version =
        ground (arith, h₃) in
      let vs : m'.ontologies ≡ m.ontologies ++ derived_ontology d source version ∷ [] =
        ground (arith, h₃) in
      (
        source,
        found,
        ground (arith, published),
        (
          rw vs (find-snoc (λ o. o.id == new) _ m.ontologies unused (==-refl new)),
          rw (os, key) (keep_added _ (copied_object d) m.objects _ no_objects (λ o. ==-refl new)),
          rw (rs, key) (keep_added _ (copied_rule d) m.rules _ no_rules (λ r. ==-refl new)),
          rw (xs, key)
              (keep_added _ (copied_mapping d source.version) m.mappings _ no_mappings
                (λ x. ==-refl new)),
        ),
      )

-- A draft of the source's name and domain, whose objects, rules and mappings are copies of those
-- of the source, one of each, in their order.
abbrev pub Copied : Derivation → Model → Ontology → Text → Model → Type 0
Copied d m source version m' =
    ((o : Ontology) × (ontology_of m' d.new_ontology_id ≡ some o)
      × (o.name ≡ source.name)
      × (o.domain ≡ source.domain)
      × (o.version ≡ version)
      × (o.status ≡ OntologyStatus.draft))
    × Corresponds (IsObjectCopy d) (keep (λ o. o.ontology_id == source.id) m.objects)
        (keep (λ o. o.ontology_id == d.new_ontology_id) m'.objects)
    × Corresponds (IsRuleCopy d) (keep (λ r. r.ontology_id == source.id) m.rules)
        (keep (λ r. r.ontology_id == d.new_ontology_id) m'.rules)
    × Corresponds (IsMappingCopy d source.version)
        (keep (λ x. x.ontology_id == source.id) m.mappings)
        (keep (λ x. x.ontology_id == d.new_ontology_id) m'.mappings)

module _ (d : Derivation) (m : Model) (source_id : ℕ) (version actor : Text) (m' : Model) where
  -- A derivation that returned had a published source, and if the assigned key is fresh the new
  -- version is a draft of the given version whose objects, rules and mappings are, one for one and
  -- in their order, those of the source with their columns, except that objects have no parent
  -- and are drafts, rules override nothing, and mappings are pending again without a reviewer,
  -- with their target moved and a note on the source's version.
  pub derive_ontology_version-Copied :
      Fresh d.new_ontology_id m
      → derive_ontology_version d m source_id version actor ≡ ok m'
      → (source : Ontology) × (ontology_of m source_id ≡ some source)
        × (is_published source.status ≡ true)
        × Copied d m source version m'
  derive_ontology_version-Copied fresh h =
      let (source, found, published, rows) =
        derive_ontology_version-CopiedRows d m source_id version actor m' fresh h in
      let (there, os, rs, xs) = rows in
      (
        source,
        found,
        published,
        (
          (derived_ontology d source version, there, refl, refl, refl, refl),
          subst (Corresponds (IsObjectCopy d) (keep (is_object_of source.id) m.objects)) (sym os)
              (Corresponds-map (IsObjectCopy d) (copied_object d) _ (copied_object_columns d)),
          subst (Corresponds (IsRuleCopy d) (keep (is_rule_of source.id) m.rules)) (sym rs)
              (Corresponds-map (IsRuleCopy d) (copied_rule d) _ (copied_rule_columns d)),
          subst
              (Corresponds (IsMappingCopy d source.version)
                (keep (is_mapping_of source.id) m.mappings))
              (sym xs)
              (Corresponds-map (IsMappingCopy d source.version) (copied_mapping d source.version) _
                (copied_mapping_columns d source.version)),
        ),
      )

-- Mappings of other ontologies are not counted.
count_mappings-keep :
    (test : MappingStatus → Bool) (id : ℕ) (xs : List SemanticMapping)
    → count_mappings test (keep (is_mapping_of id) xs) id ≡ count_mappings test xs id
unfolding count_mappings
count_mappings-keep test id [] = refl
count_mappings-keep test id (x ∷ xs) = ground (arith, count_mappings-keep test id xs)

module _ (d : Derivation) (version : Text) where
  count_mappings-copied :
      (xs : List SemanticMapping)
      → (count_mappings is_pending (map (copied_mapping d version) xs) d.new_ontology_id
          ≡ length xs)
        × (count_mappings is_confirmed_status (map (copied_mapping d version) xs) d.new_ontology_id
            ≡ 0)
  unfolding count_mappings
  count_mappings-copied [] = (refl, refl)
  count_mappings-copied (x ∷ xs) =
      let (pending, confirmed) = count_mappings-copied xs in
      (rw (==-refl d.new_ontology_id, pending) refl, rw (==-refl d.new_ontology_id, confirmed) refl)

-- Why a version that has just been derived cannot be published.
abbrev pub refusal : ℕ → Error
refusal mappings = if ltb 0 mappings then mappings_pending else no_confirmed_mapping

publish-draft :
    (m : Model) (blockers : ℕ) (force : Bool) (id : ℕ) (publisher : Text) (later : Model)
    (o : Ontology)
    → ontology_of m id ≡ some o
    → o.status ≡ OntologyStatus.draft
    → confirmed_count m.mappings id ≡ 0
    → publish_ontology m blockers force id publisher later
      ≡ err (refusal (pending_count m.mappings id))
unfolding publish_ontology check_publishable
publish-draft m blockers force id publisher later o found draft confirmed =
    rw (found, draft, confirmed)
      (elim (Bool-cases (ltb 0 (pending_count m.mappings id))) [
        | inl e ↦ rw e refl
        | inr e ↦ rw e refl
      ])

module _ (d : Derivation) (m : Model) (source_id : ℕ) (version actor : Text) (m' : Model) where
  -- A version that has just been derived, under a fresh key, cannot be published, not even by
  -- force and whatever the release gates say: its copied mappings are all pending again, or the
  -- source has none to copy and so there is no confirmed one.
  pub derive_ontology_version-publish_ontology :
      (blockers : ℕ) (force : Bool) (publisher : Text) (later : Model)
      → Fresh d.new_ontology_id m
      → derive_ontology_version d m source_id version actor ≡ ok m'
      → publish_ontology m' blockers force d.new_ontology_id publisher later
        ≡ err (refusal (length (keep (is_mapping_of source_id) m.mappings)))
  derive_ontology_version-publish_ontology blockers force publisher later fresh h =
      let (source, found, published, copied) =
        derive_ontology_version-CopiedRows d m source_id version actor m' fresh h in
      let (there, os, rs, xs) = copied in
      let new = d.new_ontology_id in
      let kept = keep (is_mapping_of source_id) m.mappings in
      let key : source.id ≡ source_id = find-id source_id m.ontologies source found in
      let (pending, confirmed) = count_mappings-copied d source.version kept in
      let same : keep (is_mapping_of new) m'.mappings ≡ map (copied_mapping d source.version) kept =
        rw key at xs in
      let all_pending : pending_count m'.mappings new ≡ length kept =
        sym (count_mappings-keep is_pending new m'.mappings)
        ∙ (ap (λ ys. count_mappings is_pending ys new) same ∙ pending) in
      let none_confirmed : confirmed_count m'.mappings new ≡ 0 =
        sym (count_mappings-keep is_confirmed_status new m'.mappings)
        ∙ (ap (λ ys. count_mappings is_confirmed_status ys new) same ∙ confirmed) in
      publish-draft m' blockers force new publisher later _ there refl none_confirmed
      ∙ ap (λ n. err (refusal n)) all_pending
