-- ===== src/Derived/Consistent.antt =====
-- The derived values that the rules see, of backend/ontology_platform/derived_attributes.py, are
-- what their expressions yield there.
use aletheia_onto.Base.{
  ◌≡◌, refl, sym, ◌∙◌, ap, true, not, none, some, List, [], ◌∷◌, arith, if◌then◌else◌, is_set,
  Option-cases, inl, inr, Text, lookup, ok,
}
use aletheia_onto.Derived.{
  Value, DerivedSpec, DerivedResult, Context, Sandbox, Progress, with_unit, computed,
  max_derivation_passes, derive_passes, report_pending, compute_derived, derived_context,
}
use aletheia_onto.Derived.Passes.{Extends, IsMonotone, Fresh, IsExplained}
use aletheia_onto.Derived.Seen.{
  update, lookup-update, seen, seen_of, lookup-derived_context, Distinct-derived_context,
  Unreported, report_pending-Distinct, seen_at-report_pending, report_pending-computed,
  derive_passes-Keeps,
}

module _ {N : Type 0} where
  -- Before the first pass.
  abbrev pub initial : Context N → Progress N
  initial context = record { working = context; results = [] }

  module _ (evaluate : Sandbox N) (monotone : IsMonotone evaluate) (context : Context N) where
    -- An attribute without a value has no result.
    unreported :
        (p : Progress N) (specs : List DerivedSpec)
        → IsExplained evaluate context p
        → Fresh p.working specs
        → Unreported p.results specs
    unreported p [] ex f = tt
    unreported p (s ∷ specs) ex f = (
      elim (Option-cases (lookup s.code p.results)) [
        | inl e ↦ e
        | inr (r, e) ↦
            let visible = ex.visible s.code in
            let value : lookup s.code p.working ≡ some r.value = rw e at visible in
            absurd (ground (arith, value, f.0))
      ],
      f.1,
      unreported p specs ex f.2,
    )

    -- The rules' context has the values that the last pass had.
    working-seen :
        (p : Progress N) (specs : List DerivedSpec)
        → IsExplained evaluate context p
        → Fresh p.working specs
        → Extends p.working
            (update context (derived_context (report_pending evaluate p.working specs p.results)))
    working-seen p specs ex f k v h =
        let final = report_pending evaluate p.working specs p.results in
        let final-Distinct =
          report_pending-Distinct evaluate p.working specs p.results ex.distinct in
        let same : lookup k (derived_context final) ≡ seen_of (lookup k p.results) =
          lookup-derived_context k final final-Distinct
          ∙ seen_at-report_pending evaluate p.working k specs p.results (unreported p specs ex f) in
        let visible = ex.visible k in
        lookup-update k context (derived_context final)
          (Distinct-derived_context final final-Distinct)
        ∙ elim (Option-cases (lookup k p.results)) [
          | inl e ↦
              let none_seen : lookup k (derived_context final) ≡ none = same ∙ ap seen_of e in
              let before : lookup k p.working ≡ lookup k context = rw e at visible in
              rw none_seen (sym before ∙ h)
          | inr (r, e) ↦
              let fine : computed r ≡ true = ap (λ x. not (is_set x)) (ex.yields k r e).0 in
              let shown : seen r ≡ some r.value = ap (λ b. if b then some r.value else none) fine in
              let now : lookup k (derived_context final) ≡ some r.value =
                same ∙ (ap seen_of e ∙ shown) in
              let before : lookup k p.working ≡ some r.value = rw e at visible in
              rw now (sym before ∙ h)
        ]

    pub initial-IsExplained : IsExplained evaluate context (initial context)
    initial-IsExplained = record {
      yields = λ code r h. absurd (ground (arith, h));
      visible = λ code. refl;
      distinct = tt;
    }

    -- If an expression that has a value keeps it when names are added, and the attributes' codes
    -- differ from each other and from the names of the context, then the value of every attribute
    -- that is reported as computed is, up to its unit, what its expression yields in the context
    -- that the rules see: the given one updated with all derived values. It does not matter in
    -- which order the attributes are declared.
    pub compute_derived_consistent :
        (specs : List DerivedSpec) (code : Text) (r : DerivedResult N)
        → Fresh context specs
        → lookup code (compute_derived evaluate specs context) ≡ some r
        → computed r ≡ true
        → (v : Value N) × (evaluate r.expression
              (update context (derived_context (compute_derived evaluate specs context)))
            ≡ ok v)
          × (r.value ≡ with_unit r.unit v)
    unfolding compute_derived
    compute_derived_consistent specs code r fresh h fine =
        let q = derive_passes evaluate max_derivation_passes specs (initial context) in
        let (ex, f) =
          derive_passes-Keeps evaluate monotone context max_derivation_passes specs
            (initial context) initial-IsExplained fresh in
        let grows = working-seen q.0 q.1 ex f in
        elim (report_pending-computed evaluate q.0.working code r q.1 q.0.results h) [
          | inr failed ↦ absurd (ground (arith, failed, fine))
          | inl there ↦
              let (zero_error, v, holds, unit) = ex.yields code r there in
              (v, monotone r.expression q.0.working _ v grows holds, unit)
        ]
