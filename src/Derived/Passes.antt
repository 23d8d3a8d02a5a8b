-- ===== src/Derived/Passes.antt =====
-- What a pass of backend/ontology_platform/derived_attributes.py keeps: every value in the context
-- is what its expression yields there, and no pending attribute has a value.
use aletheia_onto.Base.{
  ◌≡◌, refl, sym, ◌∙◌, ap, subst, false, none, some, List, [], ◌∷◌, arith, All, ◌==◌, ==→eq,
  Bool-cases, ◌⊎◌, inl, inr, Text, lookup, insert, lookup-insert, Result, ok, err, Distinct,
  Distinct-insert,
}
use aletheia_onto.Derived.{
  Value, DerivedSpec, DerivedResult, Context, Sandbox, Progress, with_unit, computed_result,
  add_value, derive_pass,
}

pub Result-cases :
    {E A : Type 0} (r : Result E A) → ((a : A) × (r ≡ ok a)) ⊎ ((e : E) × (r ≡ err e))
Result-cases (ok a) = inl (a, refl)
Result-cases (err e) = inr (e, refl)

-- No attribute has the code.
abbrev pub Differs : Text → List DerivedSpec → Type 0
Differs code specs = All (λ t. (code == t.code) ≡ false) specs

module _ {N : Type 0} where
  -- The second context has all values of the first.
  abbrev pub Extends : Context N → Context N → Type 0
  Extends c c' = (k : Text) (v : Value N) → lookup k c ≡ some v → lookup k c' ≡ some v

  -- An expression that has a value keeps it when names are added.
  abbrev pub IsMonotone : Sandbox N → Type 0
  IsMonotone evaluate =
      (e : Text) (c c' : Context N) (v : Value N)
      → Extends c c'
      → evaluate e c ≡ ok v
      → evaluate e c' ≡ ok v

  -- The codes of the attributes differ, and none has a value.
  abbrev pub Fresh : Context N → List DerivedSpec → Type 0
  Fresh c [] = Unit
  Fresh c (s ∷ specs) = (lookup s.code c ≡ none) × Differs s.code specs × Fresh c specs

  -- Every result is what its expression yields in the context, which is the given one with the
  -- values of the results.
  pub record IsExplained (evaluate : Sandbox N) (context : Context N) (p : Progress N)
      : Type 0 where
    pub yields :
        (code : Text) (r : DerivedResult N)
        → lookup code p.results ≡ some r
        → (r.error ≡ 0)
          × (v : Value N) × (evaluate r.expression p.working ≡ ok v)
          × (r.value ≡ with_unit r.unit v)
    pub visible :
        (code : Text)
        → lookup code p.working
          ≡ elim (lookup code p.results) [ none ↦ lookup code context | some r ↦ some r.value ]
    pub distinct : Distinct p.results

  pub Extends-insert :
      (c : Context N) (k : Text) (v : Value N) → lookup k c ≡ none → Extends c (insert k v c)
  Extends-insert c k v absent j w h = elim (Bool-cases (j == k)) [
    | inr e ↦ rw (lookup-insert j k v c, e) h
    | inl e ↦ absurd (ground (arith, ap (λ x. lookup x c) (==→eq j k e), absent, h))
  ]

  pub Fresh-insert :
      (c : Context N) (k : Text) (v : Value N) (specs : List DerivedSpec)
      → Differs k specs
      → Fresh c specs
      → Fresh (insert k v c) specs
  Fresh-insert c k v [] d f = tt
  Fresh-insert c k v (s ∷ specs) d f =
      let out : (s.code == k) ≡ false = ground (arith, d.0) in
      (lookup-insert s.code k v c ∙ rw out f.0, f.1, Fresh-insert c k v specs d.1 f.2)

  pub derive_pass_ok :
      (evaluate : Sandbox N) (s : DerivedSpec) (specs : List DerivedSpec) (p : Progress N)
      (v : Value N)
      → evaluate s.expression p.working ≡ ok v
      → derive_pass evaluate (s ∷ specs) p ≡ derive_pass evaluate specs (add_value s v p)
  unfolding derive_pass
  derive_pass_ok evaluate s specs p v e = rw (derive_pass, e) refl

  pub derive_pass_err :
      (evaluate : Sandbox N) (s : DerivedSpec) (specs : List DerivedSpec) (p : Progress N)
      (x : Text)
      → evaluate s.expression p.working ≡ err x
      → derive_pass evaluate (s ∷ specs) p
        ≡ ((derive_pass evaluate specs p).0, s ∷ (derive_pass evaluate specs p).1)
  unfolding derive_pass
  derive_pass_err evaluate s specs p x e = rw (derive_pass, e) refl

  module _ (evaluate : Sandbox N) (monotone : IsMonotone evaluate) (context : Context N) where
    -- A value that is added is explained, and the others still are.
    add_value-IsExplained :
        (s : DerivedSpec) (v : Value N) (p : Progress N)
        → evaluate s.expression p.working ≡ ok v
        → lookup s.code p.working ≡ none
        → IsExplained evaluate context p
        → IsExplained evaluate context (add_value s v p)
    unfolding add_value computed_result
    add_value-IsExplained s v p value absent ex = record {
      yields = λ code r h. elim (Bool-cases (code == s.code)) [
        | inl e ↦
            let same : computed_result s v ≡ r =
              ground (arith, lookup-insert code s.code (computed_result s v) p.results, e, h) in
            subst
              (λ (r : DerivedResult N).
                (r.error ≡ 0)
                × (w : Value N) × (evaluate r.expression (add_value s v p).working ≡ ok w)
                × (r.value ≡ with_unit r.unit w))
              same (refl, v, monotone s.expression p.working _ v grown value, refl)
        | inr e ↦
            let before : lookup code p.results ≡ some r =
              ground (arith, lookup-insert code s.code (computed_result s v) p.results, e, h) in
            let (fine, w, holds, unit) = ex.yields code r before in
            (fine, w, monotone r.expression p.working _ w grown holds, unit)
      ];
      visible = λ code.
          rw
            (
              lookup-insert code s.code (with_unit s.unit v) p.working,
              lookup-insert code s.code (computed_result s v) p.results,
            )
            (elim (Bool-cases (code == s.code)) [
              | inl e ↦ rw e refl
              | inr e ↦ rw e (ex.visible code)
            ]);
      distinct = Distinct-insert s.code (computed_result s v) p.results ex.distinct;
    }
      where
        grown : Extends p.working (add_value s v p).working
        grown = Extends-insert p.working s.code (with_unit s.unit v) absent

    -- The part of the context that a pass does not touch, and the attributes it defers.
    abbrev pub PassKeeps : List DerivedSpec → Progress N → Progress N → List DerivedSpec → Type 0
    PassKeeps specs p after deferred =
        IsExplained evaluate context after
        × Fresh after.working deferred
        × Extends p.working after.working
        × ((code : Text)
            → Differs code specs
            → (lookup code after.working ≡ lookup code p.working) × Differs code deferred)

    pub derive_pass-Keeps :
        (specs : List DerivedSpec) (p : Progress N)
        → IsExplained evaluate context p
        → Fresh p.working specs
        → PassKeeps specs p (derive_pass evaluate specs p).0 (derive_pass evaluate specs p).1
    unfolding derive_pass add_value
    derive_pass-Keeps [] p ex f = (ex, tt, (λ k v h. h), (λ code d. (refl, tt)))
    derive_pass-Keeps (s ∷ specs) p ex f = elim (Result-cases (evaluate s.expression p.working)) [
      | inl (v, e) ↦
          let added = add_value s v p in
          let (ex', f', grows, rest) =
            derive_pass-Keeps specs added (add_value-IsExplained s v p e f.0 ex)
              (Fresh-insert p.working s.code (with_unit s.unit v) specs f.1 f.2) in
          subst (λ (q : Progress N × List DerivedSpec). PassKeeps (s ∷ specs) p q.0 q.1)
            (sym (derive_pass_ok evaluate s specs p v e))
            (
              ex',
              f',
              (λ k w h. grows k w (Extends-insert p.working s.code (with_unit s.unit v) f.0 k w h)),
              (λ code d.
                  let (same, differs) = rest code d.1 in
                  (
                    same ∙ (lookup-insert code s.code (with_unit s.unit v) p.working ∙ rw d.0 refl),
                    differs,
                  )),
            )
      | inr (x, e) ↦
          let (ex', f', grows, rest) = derive_pass-Keeps specs p ex f.2 in
          let (same, differs) = rest s.code f.1 in
          subst (λ (q : Progress N × List DerivedSpec). PassKeeps (s ∷ specs) p q.0 q.1)
            (sym (derive_pass_err evaluate s specs p x e))
            (
              ex',
              (same ∙ f.0, differs, f'),
              grows,
              (λ code d. let (same, differs) = rest code d.1 in (same, (d.0, differs))),
            )
    ]
