-- ===== src/Governance/Published.antt =====
-- What a published ontology of backend/ontology_platform/governance.py guarantees about its
-- mappings, whatever is reviewed and published and in whatever interleaving.
use aletheia_onto.Base.{
  ℕ, ◌≤◌, ◌≡◌, refl, sym, ap, ◌∙◌, subst, Bool, true, false, not, some, List, [], ◌∷◌, arith, find,
  ◌==◌, ==→eq, ltb, ◌&&◌, ◌||◌, Text, Bool-cases, inl, inr, ok, raise_if_returned,
  or_raise_returned, bind_returned,
}
use aletheia_onto.Model.{Model, Ontology, MappingStatus, SemanticMapping, is_published, ontology_of}
use aletheia_onto.Governance.{
  count_mappings, pending_count, confirmed_count, mapping_of, reviewed, update_mapping,
  review_semantic_mapping, review_pending, bulk_review_semantic_mappings, set_published,
  check_publishable, write_published, publish_ontology, is_pending,
}

-- A published ontology has no pending mapping and a confirmed one.
abbrev pub HasReviewed : Model → Type 0
HasReviewed m =
    (id : ℕ) (o : Ontology)
    → ontology_of m id ≡ some o
    → is_published o.status ≡ true
    → (pending_count m.mappings id ≡ 0) × (1 ≤ confirmed_count m.mappings id)

module _ (test : MappingStatus → Bool) (f : SemanticMapping → SemanticMapping)
    (same : (y : SemanticMapping) → (f y).ontology_id ≡ y.ontology_id) where
  -- An update of a mapping of one ontology leaves the counts of another as they are.
  count-update_mapping :
      (id mapping_id : ℕ) (xs : List SemanticMapping) (x : SemanticMapping)
      → find (λ y. y.id == mapping_id) xs ≡ some x
      → (x.ontology_id == id) ≡ false
      → count_mappings test (update_mapping f mapping_id xs) id ≡ count_mappings test xs id
  unfolding count_mappings update_mapping
  count-update_mapping id mapping_id [] x h other = refl
  count-update_mapping id mapping_id (y ∷ ys) x h other = elim (Bool-cases (y.id == mapping_id)) [
    | inl e ↦
        let eq : some y ≡ some x = rw e at h in
        let mine : (y.ontology_id == id) ≡ false = ground (arith, eq, other) in
        rw (e, same y, mine) refl
    | inr e ↦ rw e (ground (arith, count-update_mapping id mapping_id ys x (rw e at h) other))
  ]

  count-review_pending :
      (id ontology_id : ℕ) (xs : List SemanticMapping)
      → (ontology_id == id) ≡ false
      → count_mappings test (review_pending f ontology_id xs) id ≡ count_mappings test xs id
  unfolding count_mappings review_pending
  count-review_pending id ontology_id [] other = refl
  count-review_pending id ontology_id (y ∷ ys) other =
      let ih = count-review_pending id ontology_id ys other in
      elim (Bool-cases ((y.ontology_id == ontology_id) && is_pending y.status)) [
        | inr e ↦ rw e (ground (arith, ih))
        | inl e ↦
            let mine : (y.ontology_id == id) ≡ false = ground (arith, e, other) in
            rw (e, same y, mine) ih
      ]

-- Two readings of one row.
pub other_ontology :
    (m : Model) (a id : ℕ) (p o : Ontology)
    → ontology_of m a ≡ some p
    → ontology_of m id ≡ some o
    → is_published p.status ≡ false
    → is_published o.status ≡ true
    → (a == id) ≡ false
other_ontology m a id p o hp ho np po = elim (Bool-cases (a == id)) [
  | inr e ↦ e
  | inl e ↦
      let eq : some p ≡ some o = sym hp ∙ (ap (λ n. ontology_of m n) (==→eq a id e) ∙ ho) in
      absurd (ground (arith, eq, np, po))
]

module _ (join : Text → Text → Text) (m : Model) (m' : Model) (valid : HasReviewed m) where
  review_semantic_mapping-HasReviewed :
      (mapping_id : ℕ) (status : MappingStatus) (reviewer note : Text)
      → review_semantic_mapping join m mapping_id status reviewer note ≡ ok m'
      → HasReviewed m'
  unfolding review_semantic_mapping
  review_semantic_mapping-HasReviewed mapping_id status reviewer note h id o =
      let (x, found, h₁) = or_raise_returned (mapping_of m mapping_id) _ _ m' h in
      let (p, its, h₂) = or_raise_returned (ontology_of m x.ontology_id) _ _ m' h₁ in
      let (mutable, h₃) = raise_if_returned (is_published p.status) _ _ m' h₂ in
      let f = reviewed join status reviewer note in
      let ontologies : m'.ontologies ≡ m.ontologies = ground (arith, h₃) in
      let mappings : m'.mappings ≡ update_mapping f mapping_id m.mappings = ground (arith, h₃) in
      rw (ontologies, mappings)
        (λ ho po.
          let other = other_ontology m x.ontology_id id p o its ho mutable po in
          let (none_pending, some_confirmed) = valid id o ho po in
          (
            count-update_mapping _ f (λ y. refl) id mapping_id m.mappings x found other
                ∙ none_pending,
            rw (count-update_mapping _ f (λ y. refl) id mapping_id m.mappings x found other)
                some_confirmed,
          ))

  bulk_review_semantic_mappings-HasReviewed :
      (ontology_id : ℕ) (status : MappingStatus) (reviewer note : Text)
      → bulk_review_semantic_mappings join m ontology_id status reviewer note ≡ ok m'
      → HasReviewed m'
  unfolding bulk_review_semantic_mappings
  bulk_review_semantic_mappings-HasReviewed ontology_id status reviewer note h id o =
      let (p, its, h₂) = or_raise_returned (ontology_of m ontology_id) _ _ m' h in
      let (mutable, h₃) = raise_if_returned (is_published p.status) _ _ m' h₂ in
      let f = reviewed join status reviewer note in
      let ontologies : m'.ontologies ≡ m.ontologies = ground (arith, h₃) in
      let mappings : m'.mappings ≡ review_pending f ontology_id m.mappings = ground (arith, h₃) in
      rw (ontologies, mappings)
        (λ ho po.
          let other = other_ontology m ontology_id id p o its ho mutable po in
          let (none_pending, some_confirmed) = valid id o ho po in
          (
            count-review_pending _ f (λ y. refl) id ontology_id m.mappings other ∙ none_pending,
            rw (count-review_pending _ f (λ y. refl) id ontology_id m.mappings other)
                some_confirmed,
          ))

find-set_published :
    (id ontology_id : ℕ) (os : List Ontology)
    → (ontology_id == id) ≡ false
    → find (λ o. o.id == id) (set_published ontology_id os) ≡ find (λ o. o.id == id) os
unfolding set_published
find-set_published id ontology_id [] other = refl
find-set_published id ontology_id (o ∷ os) other = elim (Bool-cases (o.id == ontology_id)) [
  | inr e ↦ rw e (ground (arith, find-set_published id ontology_id os other))
  | inl e ↦
      let mine : (o.id == id) ≡ false = ground (arith, e, other) in
      rw (e, mine) (find-set_published id ontology_id os other)
]

write_published-HasReviewed :
    (m : Model) (ontology_id : ℕ) (publisher : Text) (m' : Model)
    → HasReviewed m
    → write_published m ontology_id publisher ≡ ok m'
    → HasReviewed m'
unfolding write_published
write_published-HasReviewed m ontology_id publisher m' valid h =
    let (reread, found, h₁) = or_raise_returned (ontology_of m ontology_id) _ _ m' h in
    elim (Bool-cases (is_published reread.status)) [
      | inl e ↦ let same : m ≡ m' = ground (arith, e, h₁) in subst HasReviewed same valid
      | inr e ↦
          let changed =
            ltb 0 (pending_count m.mappings ontology_id)
            || (confirmed_count m.mappings ontology_id == 0) in
          let (unchanged, h₂) = raise_if_returned changed _ _ m' (rw e at h₁) in
          let ontologies : m'.ontologies ≡ set_published ontology_id m.ontologies =
            ground (arith, h₂) in
          let mappings : m'.mappings ≡ m.mappings = ground (arith, h₂) in
          λ id o. elim (Bool-cases (ontology_id == id)) [
            | inl same ↦ λ ho po.
                rw (mappings, sym (==→eq ontology_id id same))
                  (ground (arith, unchanged), ground (arith, unchanged))
            | inr other ↦
                rw (ontologies, mappings, find-set_published id ontology_id m.ontologies other)
                  (valid id o)
          ]
    ]

pub publish_ontology-HasReviewed :
    (seen : Model) (blockers : ℕ) (force : Bool) (ontology_id : ℕ) (publisher : Text) (m m' : Model)
    → HasReviewed m
    → publish_ontology seen blockers force ontology_id publisher m ≡ ok m'
    → HasReviewed m'
unfolding publish_ontology
publish_ontology-HasReviewed seen blockers force ontology_id publisher m m' valid h =
    let (already, checked, h₁) = bind_returned (check_publishable seen ontology_id) _ m' h in
    elim (Bool-cases already) [
      | inl e ↦ let same : m ≡ m' = ground (arith, e, h₁) in subst HasReviewed same valid
      | inr e ↦
          let (unblocked, h₂) =
            raise_if_returned (ltb 0 blockers && not force) _ _ m' (rw e at h₁) in
          write_published-HasReviewed m ontology_id publisher m' valid h₂
    ]

-- One committed call; a publication may have looked first at any other state.
pub data Step (join : Text → Text → Text) : Model → Model → Type 0 where
  review_one :
      {m m' : Model} (mapping_id : ℕ) (status : MappingStatus) (reviewer note : Text)
      → review_semantic_mapping join m mapping_id status reviewer note ≡ ok m'
      → Step join m m'
  review_many :
      {m m' : Model} (ontology_id : ℕ) (status : MappingStatus) (reviewer note : Text)
      → bulk_review_semantic_mappings join m ontology_id status reviewer note ≡ ok m'
      → Step join m m'
  publish :
      {m m' : Model} (seen : Model) (blockers : ℕ) (force : Bool) (ontology_id : ℕ)
      (publisher : Text)
      → publish_ontology seen blockers force ontology_id publisher m ≡ ok m'
      → Step join m m'

pub data Steps (join : Text → Text → Text) : Model → Model → Type 0 where
  done : {m : Model} → Steps join m m
  next : {m n m' : Model} → Step join m n → Steps join n m' → Steps join m m'

Step-HasReviewed :
    (join : Text → Text → Text) (m m' : Model) → Step join m m' → HasReviewed m → HasReviewed m'
Step-HasReviewed join m m' (review_one mapping_id status reviewer note h) valid =
    review_semantic_mapping-HasReviewed join m m' valid mapping_id status reviewer note h
Step-HasReviewed join m m' (review_many ontology_id status reviewer note h) valid =
    bulk_review_semantic_mappings-HasReviewed join m m' valid ontology_id status reviewer note h
Step-HasReviewed join m m' (publish seen blockers force ontology_id publisher h) valid =
    publish_ontology-HasReviewed seen blockers force ontology_id publisher m m' valid h

-- Reviews, bulk reviews and publications, committed in any order and with publications that first
-- looked at any other state of the tables, keep the guarantee: if every published ontology has no
-- pending mapping and at least one confirmed mapping before them, so has every one after them.
pub Steps-HasReviewed :
    (join : Text → Text → Text) (m m' : Model) → Steps join m m' → HasReviewed m → HasReviewed m'
Steps-HasReviewed join m m' done valid = valid
Steps-HasReviewed join m m' (next {n = n} step steps) valid =
    Steps-HasReviewed join n m' steps (Step-HasReviewed join m n step valid)
