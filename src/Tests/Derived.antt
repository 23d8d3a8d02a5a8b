-- ===== src/Tests/Derived.antt =====
-- Examples for backend/ontology_platform/derived_attributes.py.
use aletheia_onto.Base.{
  ℕ, ◌≡◌, refl, ap, ◌∙◌, true, Option, none, some, List, [], ◌∷◌, arith, All, Text, lookup, ok, err,
  Option-cases, inl, inr, ◌==◌, if◌then◌else◌,
}
use aletheia_onto.Derived.{
  Value, number, quantity, DerivedSpec, DerivedResult, Context, Sandbox, computed, unavailable,
  with_unit, compute_derived, derived_context, derive_passes, derive_pass, add_value,
  computed_result, report_pending,
}
use aletheia_onto.Derived.Passes.{IsMonotone, Fresh}
use aletheia_onto.Derived.Seen.{update}
use aletheia_onto.Derived.Consistent.{compute_derived_consistent}
use aletheia_onto.Derived.Depth.{IsSupported, compute_derived_complete}

-- An expression is one name.
abbrev name_lookup : Sandbox ℕ
name_lookup e c = elim (lookup e c) [ none ↦ err 9 | some v ↦ ok v ]

name_lookup_found :
    (e : Text) (c : Context ℕ) (v : Value ℕ) → lookup e c ≡ some v → name_lookup e c ≡ ok v
name_lookup_found e c v h = rw (name_lookup, h) refl

name_lookup-IsMonotone : IsMonotone name_lookup
name_lookup-IsMonotone e c c' v grows h = elim (Option-cases (lookup e c)) [
  | inl absent ↦ absurd (ground (arith, absent, h))
  | inr (w, there) ↦
      let same : w ≡ v = ground (arith, there, h) in
      let after : lookup e c' ≡ some w = grows e w there in
      name_lookup_found e c' w after ∙ ap ok same
]

abbrev named_by : Text → Text → Text → DerivedSpec
named_by code expression unit = record {
  code = code;
  name = code;
  expression = expression;
  unit = unit;
}

abbrev stored : Context ℕ
stored = (1, number 7) ∷ []

-- The attribute 12 takes the value of 11, which is declared after it and takes that of 1.
abbrev two_specs : List DerivedSpec
two_specs = named_by 12 11 0 ∷ named_by 11 1 3 ∷ []

two_specs-Fresh : Fresh stored two_specs
two_specs-Fresh = (refl, (refl, tt), (refl, tt, tt))

abbrev last_result : DerivedResult ℕ
last_result = record { name = 12; value = quantity 7 3; expression = 11; unit = 0; error = 0 }

two_specs_computed : lookup 12 (compute_derived name_lookup two_specs stored) ≡ some last_result
unfolding compute_derived derive_passes derive_pass add_value computed_result with_unit
    report_pending
two_specs_computed = refl

compute_derived_consistent_example :
    (v : Value ℕ) × (name_lookup 11
        (update stored (derived_context (compute_derived name_lookup two_specs stored)))
      ≡ ok v)
    × (quantity 7 3 ≡ with_unit 0 v)
compute_derived_consistent_example =
    compute_derived_consistent name_lookup name_lookup-IsMonotone stored two_specs 12 last_result
      two_specs-Fresh two_specs_computed refl

-- 11 has the rank 0 and 12 the rank 1.
abbrev two_ranks : Text → ℕ
two_ranks code = if code == 12 then 1 else 0

two_specs-IsSupported :
    All (IsSupported name_lookup name_lookup-IsMonotone stored two_ranks two_specs) two_specs
two_specs-IsSupported = (
  (λ c grows h. let (v, there) = h.1.0 (omega arith) in (v, name_lookup_found 11 c v there)),
  ((λ c grows h. (number 7, name_lookup_found 1 c (number 7) (grows 1 (number 7) refl))), tt),
)

compute_derived_complete_example :
    (r : DerivedResult ℕ) × (lookup 12 (compute_derived name_lookup two_specs stored) ≡ some r)
    × (computed r ≡ true)
compute_derived_complete_example =
    compute_derived_complete name_lookup name_lookup-IsMonotone stored two_ranks two_specs 12
      two_specs-Fresh two_specs-IsSupported (omega arith, (omega arith, tt)) refl

-- Six attributes that each take the value of the one declared after it: the passes end before the
-- first is reached, and it is reported although its expression has a value by then.
abbrev six_specs : List DerivedSpec
six_specs =
    named_by 16 15 0
    ∷ named_by 15 14 0
    ∷ named_by 14 13 0
    ∷ named_by 13 12 0
    ∷ named_by 12 11 0
    ∷ named_by 11 1 0
    ∷ []

abbrev error_at : Option (DerivedResult ℕ) → Text
error_at none = 0
error_at (some r) = r.error

six_specs_cut : error_at (lookup 16 (compute_derived name_lookup six_specs stored)) ≡ unavailable
unfolding compute_derived derive_passes derive_pass add_value computed_result with_unit
    report_pending
six_specs_cut = refl

-- A quantity in the unit 4 is relabelled as one in the unit 3, its number unchanged.
relabelled : with_unit {N = ℕ} 3 (quantity 500 4) ≡ quantity 500 3
unfolding with_unit
relabelled = refl
