-- ===== src/Derived/Seen.antt =====
-- The context that the rules see after backend/ontology_platform/derived_attributes.py has reported
-- the attributes that were left.
use aletheia_onto.Base.{
  ℕ, zero, suc, ◌≡◌, refl, sym, ◌∙◌, ap, subst, false, not, Option, none, some, List, [], ◌∷◌,
  arith, ◌==◌, ==→eq, if◌then◌else◌, is_set, length, Bool-cases, Option-cases, ◌⊎◌, inl, inr, Text,
  Dict, lookup, insert, lookup-insert, Result, ok, err, Distinct, Distinct-insert,
}
use aletheia_onto.Derived.{
  Value, DerivedSpec, DerivedResult, Context, Sandbox, Progress, computed, reason, failed_result,
  derive_pass, derive_passes, report_pending, derived_context,
}
use aletheia_onto.Derived.Passes.{IsMonotone, Differs, Fresh, IsExplained, derive_pass-Keeps}

module _ {N : Type 0} where
  -- `context.update(values)`
  abbrev pub update : Context N → Context N → Context N
  update c [] = c
  update c ((k, v) ∷ values) = update (insert k v c) values

  pub lookup-update :
      (k : Text) (c d : Context N)
      → Distinct d
      → lookup k (update c d) ≡ elim (lookup k d) [ none ↦ lookup k c | some v ↦ some v ]
  lookup-update k c [] h = refl
  lookup-update k c ((j, v) ∷ d) h = elim (Bool-cases (k == j)) [
    | inl e ↦
        let gone : lookup k d ≡ none = ap (λ x. lookup x d) (==→eq k j e) ∙ h.0 in
        lookup-update k (insert j v c) d h.1 ∙ rw (gone, e) (lookup-insert k j v c ∙ rw e refl)
    | inr e ↦
        lookup-update k (insert j v c) d h.1
        ∙ rw e (elim (Option-cases (lookup k d)) [
          | inl f ↦ rw f (lookup-insert k j v c ∙ rw e refl)
          | inr (w, f) ↦ rw f refl
        ])
  ]

  -- What the rules see of a result.
  abbrev pub seen : DerivedResult N → Option (Value N)
  seen r = if computed r then some r.value else none

  abbrev pub seen_of : Option (DerivedResult N) → Option (Value N)
  seen_of none = none
  seen_of (some r) = seen r

  pub lookup-derived_context :
      (k : Text) (results : Dict (DerivedResult N))
      → Distinct results
      → lookup k (derived_context results) ≡ seen_of (lookup k results)
  unfolding derived_context
  lookup-derived_context k [] h = refl
  lookup-derived_context k ((j, r) ∷ results) h =
      let ih = lookup-derived_context k results h.1 in
      elim (Bool-cases (computed r)) [
        | inl c ↦ rw c (ground (arith, ih))
        | inr c ↦ elim (Bool-cases (k == j)) [
          | inr e ↦ rw (c, e) ih
          | inl e ↦
              let gone : lookup k results ≡ none = ap (λ x. lookup x results) (==→eq k j e) ∙ h.0 in
              rw (c, e)
                (ih ∙ (ap seen_of gone ∙ sym (ap (λ b. if b then some r.value else none) c)))
        ]
      ]

  pub Distinct-derived_context :
      (results : Dict (DerivedResult N)) → Distinct results → Distinct (derived_context results)
  unfolding derived_context
  Distinct-derived_context [] h = tt
  Distinct-derived_context ((j, r) ∷ results) h =
      let ih = Distinct-derived_context results h.1 in
      let absent : lookup j (derived_context results) ≡ none =
        lookup-derived_context j results h.1 ∙ rw h.0 refl in
      elim (Bool-cases (computed r)) [ inl c ↦ rw c (absent, ih) | inr c ↦ rw c ih ]

  module _ (evaluate : Sandbox N) (monotone : IsMonotone evaluate) (context : Context N) where
    pub derive_passes-Keeps :
        (passes : ℕ) (pending : List DerivedSpec) (p : Progress N)
        → IsExplained evaluate context p
        → Fresh p.working pending
        → IsExplained evaluate context (derive_passes evaluate passes pending p).0
          × Fresh
              (derive_passes evaluate passes pending p).0.working
              (derive_passes evaluate passes pending p).1
    unfolding derive_passes
    derive_passes-Keeps zero pending p ex f = (ex, f)
    derive_passes-Keeps (suc passes) [] p ex f = (ex, tt)
    derive_passes-Keeps (suc passes) (s ∷ specs) p ex f =
        let q = derive_pass evaluate (s ∷ specs) p in
        let (ex', f', grows, rest) =
          derive_pass-Keeps evaluate monotone context (s ∷ specs) p ex f in
        elim (Bool-cases (length q.1 == suc (length specs))) [
          | inl e ↦ rw e (ex', f')
          | inr e ↦ rw e (derive_passes-Keeps passes q.1 q.0 ex' f')
        ]

  failed_not_computed : (r : Result Text (Value N)) → not (is_set (reason r)) ≡ false
  failed_not_computed (ok v) = refl
  failed_not_computed (err e) = elim (Bool-cases (is_set e)) [
    | inl h ↦ rw (h, h) refl
    | inr h ↦ rw h refl
  ]

  abbrev pub seen_at : Text → Dict (DerivedResult N) → Option (Value N)
  seen_at k results = seen_of (lookup k results)

  -- The codes that have no result yet.
  abbrev pub Unreported : Dict (DerivedResult N) → List DerivedSpec → Type 0
  Unreported results [] = Unit
  Unreported results (s ∷ specs) =
      (lookup s.code results ≡ none) × Differs s.code specs × Unreported results specs

  Unreported-insert :
      (k : Text) (r : DerivedResult N) (results : Dict (DerivedResult N)) (specs : List DerivedSpec)
      → Differs k specs
      → Unreported results specs
      → Unreported (insert k r results) specs
  Unreported-insert k r results [] d u = tt
  Unreported-insert k r results (s ∷ specs) d u =
      let out : (s.code == k) ≡ false = ground (arith, d.0) in
      (
        lookup-insert s.code k r results ∙ rw out u.0,
        u.1,
        Unreported-insert k r results specs d.1 u.2,
      )

  module _ (evaluate : Sandbox N) (working : Context N) where
    pub report_pending-Distinct :
        (pending : List DerivedSpec) (results : Dict (DerivedResult N))
        → Distinct results
        → Distinct (report_pending evaluate working pending results)
    unfolding report_pending
    report_pending-Distinct [] results h = h
    report_pending-Distinct (s ∷ specs) results h =
        report_pending-Distinct specs _
          (Distinct-insert s.code (failed_result evaluate working s) results h)

    -- A reported attribute shows no value.
    pub seen_at-report_pending :
        (k : Text) (pending : List DerivedSpec) (results : Dict (DerivedResult N))
        → Unreported results pending
        → seen_at k (report_pending evaluate working pending results) ≡ seen_at k results
    unfolding report_pending
    seen_at-report_pending k [] results u = refl
    seen_at-report_pending k (s ∷ specs) results u =
        let failed = failed_result evaluate working s in
        let hidden : seen failed ≡ none =
          ap (λ b. if b then some failed.value else none)
            (failed_not_computed (evaluate s.expression working)) in
        seen_at-report_pending k specs (insert s.code failed results)
          (Unreported-insert s.code failed results specs u.1 u.2)
        ∙ elim (Bool-cases (k == s.code)) [
          | inr e ↦
              let same : lookup k (insert s.code failed results) ≡ lookup k results =
                lookup-insert k s.code failed results ∙ rw e refl in
              ap seen_of same
          | inl e ↦
              let gone : lookup k results ≡ none =
                ap (λ x. lookup x results) (==→eq k s.code e) ∙ u.0 in
              let there : lookup k (insert s.code failed results) ≡ some failed =
                lookup-insert k s.code failed results ∙ rw e refl in
              ap seen_of there ∙ (hidden ∙ sym (ap seen_of gone))
        ]

    pub report_pending-computed :
        (k : Text) (r : DerivedResult N) (pending : List DerivedSpec)
        (results : Dict (DerivedResult N))
        → lookup k (report_pending evaluate working pending results) ≡ some r
        → (lookup k results ≡ some r) ⊎ (computed r ≡ false)
    unfolding report_pending
    report_pending-computed k r [] results h = inl h
    report_pending-computed k r (s ∷ specs) results h =
        let failed = failed_result evaluate working s in
        elim (report_pending-computed k r specs (insert s.code failed results) h) [
          | inr f ↦ inr f
          | inl g ↦ elim (Bool-cases (k == s.code)) [
            | inr e ↦ inl (sym (lookup-insert k s.code failed results ∙ rw e refl) ∙ g)
            | inl e ↦
                let same : some failed ≡ some r =
                  sym (lookup-insert k s.code failed results ∙ rw e refl) ∙ g in
                let eq : failed ≡ r = ground (arith, same) in
                inr (
                  subst (λ (x : DerivedResult N). computed x ≡ false) eq
                    (failed_not_computed (evaluate s.expression working)))
          ]
        ]
