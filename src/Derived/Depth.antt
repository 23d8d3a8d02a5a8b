-- ===== src/Derived/Depth.antt =====
-- Which attributes the five passes of backend/ontology_platform/derived_attributes.py reach.
use aletheia_onto.Base.{
  ℕ, zero, suc, ◌+◌, ◌≤◌, ◌<◌, ◌≡◌, refl, sym, ap, subst, true, not, some, List, [], ◌∷◌, arith,
  All, ◌==◌, ==→eq, Bool-cases, inl, inr, Text, lookup, ok, dec_lt, is_set,
}
use aletheia_onto.Derived.{
  Value, DerivedSpec, DerivedResult, Context, Sandbox, Progress, with_unit, computed,
  max_derivation_passes, add_value, derive_pass, derive_passes, report_pending, compute_derived,
}
use aletheia_onto.Derived.Passes.{
  Result-cases, Extends, Extends-insert, IsMonotone, Fresh, Fresh-insert, IsExplained,
  derive_pass_ok, derive_pass_err, derive_pass-Keeps,
}
use aletheia_onto.Derived.Consistent.{initial, initial-IsExplained}
use aletheia_onto.Derived.Exits.{named, all_passes, derive_passes-eq, Has}
use aletheia_onto.Derived.Covered.{
  Covered, Covered-pass, Covered-all, Covered-named, derive_pass-All,
}

module _ {N : Type 0} (evaluate : Sandbox N) (monotone : IsMonotone evaluate) (context : Context N)
    (rank : Text → ℕ) where
  -- The attributes below a rank have values.
  abbrev pub HasBelow : List DerivedSpec → ℕ → Context N → Type 0
  HasBelow specs k c =
      All (λ t. (rank t.code < k) → (v : Value N) × (lookup t.code c ≡ some v)) specs

  -- The expression has a value wherever the attributes of lower rank have one.
  abbrev pub IsSupported : List DerivedSpec → DerivedSpec → Type 0
  IsSupported specs s =
      (c : Context N)
      → Extends context c
      → HasBelow specs (rank s.code) c
      → (v : Value N) × (evaluate s.expression c ≡ ok v)

  HasBelow-Extends :
      (specs : List DerivedSpec) (j k : ℕ) (c c' : Context N)
      → j ≤ k
      → Extends c c'
      → HasBelow specs k c
      → HasBelow specs j c'
  HasBelow-Extends [] j k c c' le grows h = tt
  HasBelow-Extends (t ∷ specs) j k c c' le grows h = (
    (λ lt. let (v, there) = h.0 (omega (arith, lt, le)) in (v, grows t.code v there)),
    HasBelow-Extends specs j k c c' le grows h.1,
  )

  -- A pass with values below `k` defers only attributes above `k`.
  derive_pass-above :
      (all : List DerivedSpec) (k : ℕ) (specs : List DerivedSpec) (p : Progress N)
      → All (IsSupported all) specs
      → Fresh p.working specs
      → Extends context p.working
      → HasBelow all k p.working
      → All (λ s. k < rank s.code) (derive_pass evaluate specs p).1
  unfolding derive_pass
  derive_pass-above all k [] p sup fresh grows h = tt
  derive_pass-above all k (s ∷ specs) p sup fresh grows h =
      elim (Result-cases (evaluate s.expression p.working)) [
        | inl (v, e) ↦
            let added = Extends-insert p.working s.code (with_unit s.unit v) fresh.0 in
            subst (λ (q : Progress N × List DerivedSpec). All (λ s. k < rank s.code) q.1)
              (sym (derive_pass_ok evaluate s specs p v e))
              (derive_pass-above all k specs (add_value s v p) sup.1
                (Fresh-insert p.working s.code (with_unit s.unit v) specs fresh.1 fresh.2)
                (λ j w there. added j w (grows j w there))
                (HasBelow-Extends all k k p.working (add_value s v p).working (omega arith) added
                  h))
        | inr (x, e) ↦
            subst (λ (q : Progress N × List DerivedSpec). All (λ s. k < rank s.code) q.1)
              (sym (derive_pass_err evaluate s specs p x e))
              (
                elim (dec_lt k (rank s.code)) [
                  | yes lt ↦ lt
                  | no ge ↦
                      let (v, value) = sup.0 p.working grows (
                        HasBelow-Extends all (rank s.code) k p.working p.working (omega (arith, ge))
                          (λ j w there. there) h) in
                      absurd (ground (arith, value, e))
                ],
                derive_pass-above all k specs p sup.1 fresh.2 grows h,
              )
      ]

  named-above :
      (k : ℕ) (code : Text) (specs : List DerivedSpec)
      → All (λ s. k < rank s.code) specs
      → named code specs ≡ true
      → k < rank code
  named-above k code [] a n = absurd (ground (arith, n))
  named-above k code (s ∷ specs) a n = elim (Bool-cases (code == s.code)) [
    | inl e ↦ subst (λ c. k < rank c) (sym (==→eq code s.code e)) a.0
    | inr e ↦ named-above k code specs a.1 (rw e at n)
  ]

  -- A result is a value of the context.
  Has-value :
      (p : Progress N) (code : Text)
      → IsExplained evaluate context p
      → Has evaluate p code
      → (v : Value N) × (lookup code p.working ≡ some v)
  Has-value p code ex (r, there) = let visible = ex.visible code in (r.value, rw there at visible)

  Covered-HasBelow :
      (k : ℕ) (all pending : List DerivedSpec) (p : Progress N)
      → IsExplained evaluate context p
      → Covered evaluate all p pending
      → All (λ s. k < rank s.code) pending
      → HasBelow all (suc k) p.working
  Covered-HasBelow k [] pending p ex c a = tt
  Covered-HasBelow k (t ∷ all) pending p ex c a = (
    (λ lt. elim c.0 [
      | inl has ↦ Has-value p t.code ex has
      | inr n ↦ absurd (omega (arith, named-above k t.code pending a n, lt))
    ]),
    Covered-HasBelow k all pending p ex c.1 a,
  )

  -- What holds between two passes, of attributes of which those below `k` have values.
  record IsReached (all : List DerivedSpec) (k : ℕ) (pending : List DerivedSpec) (p : Progress N)
      : Type 0 where
    explained : IsExplained evaluate context p
    fresh : Fresh p.working pending
    grows : Extends context p.working
    supported : All (IsSupported all) pending
    bounded : All (λ s. rank s.code < max_derivation_passes) pending
    above : All (λ s. k ≤ rank s.code) pending
    below : HasBelow all k p.working
    covered : Covered evaluate all p pending

  le_of_lt :
      (k : ℕ) (specs : List DerivedSpec)
      → All (λ s. k < rank s.code) specs
      → All (λ s. suc k ≤ rank s.code) specs
  le_of_lt k [] a = tt
  le_of_lt k (s ∷ specs) a = (omega (arith, a.0), le_of_lt k specs a.1)

  derive_pass-IsReached :
      (all : List DerivedSpec) (k : ℕ) (pending : List DerivedSpec) (p : Progress N)
      → IsReached all k pending p
      → IsReached all (suc k) (derive_pass evaluate pending p).1 (derive_pass evaluate pending p).0
  derive_pass-IsReached all k pending p h =
      let (ex, f, grows, rest) =
        derive_pass-Keeps evaluate monotone context pending p h.explained h.fresh in
      let over = derive_pass-above all k pending p h.supported h.fresh h.grows h.below in
      let covered = Covered-pass evaluate all pending p h.covered in
      record {
        explained = ex;
        fresh = f;
        grows = λ j v there. grows j v (h.grows j v there);
        supported = derive_pass-All evaluate (IsSupported all) pending p h.supported;
        bounded =
            derive_pass-All evaluate (λ s. rank s.code < max_derivation_passes) pending p h.bounded;
        above = le_of_lt k (derive_pass evaluate pending p).1 over;
        below = Covered-HasBelow k all _ (derive_pass evaluate pending p).0 ex covered over;
        covered = covered;
      }

  all_passes-IsReached :
      (all : List DerivedSpec) (passes k : ℕ) (pending : List DerivedSpec) (p : Progress N)
      → IsReached all k pending p
      → IsReached all
          (k + passes)
          (all_passes evaluate passes pending p).1
          (all_passes evaluate passes pending p).0
  unfolding all_passes
  all_passes-IsReached all zero k pending p h =
      subst (λ j. IsReached all j pending p) (omega arith) h
  all_passes-IsReached all (suc passes) k pending p h =
      let q = derive_pass evaluate pending p in
      subst
        (λ j.
          IsReached all j (all_passes evaluate passes q.1 q.0).1
            (all_passes evaluate passes q.1 q.0).0)
        (omega arith)
        (all_passes-IsReached all passes (suc k) q.1 q.0 (derive_pass-IsReached all k pending p h))

  none_pending :
      (specs : List DerivedSpec)
      → All (λ s. rank s.code < max_derivation_passes) specs
      → All (λ s. max_derivation_passes ≤ rank s.code) specs
      → specs ≡ []
  none_pending [] a b = refl
  none_pending (s ∷ specs) a b = absurd (omega (arith, a.0, b.0))

  HasBelow-zero : (all : List DerivedSpec) (c : Context N) → HasBelow all 0 c
  HasBelow-zero [] c = tt
  HasBelow-zero (t ∷ all) c = ((λ lt. absurd (omega (arith, lt))), HasBelow-zero all c)

  zero_above : (specs : List DerivedSpec) → All (λ s. 0 ≤ rank s.code) specs
  zero_above [] = tt
  zero_above (s ∷ specs) = (omega arith, zero_above specs)

  -- Let the attributes have ranks below five such that the expression of each has a value wherever
  -- all attributes of lower rank have one. Then, in whatever order they are declared, every
  -- attribute is computed. It is assumed that an expression that has a value keeps it when names
  -- are added, and that the codes differ from each other and from the names of the context.
  pub compute_derived_complete :
      (specs : List DerivedSpec) (code : Text)
      → Fresh context specs
      → All (IsSupported specs) specs
      → All (λ s. rank s.code < max_derivation_passes) specs
      → named code specs ≡ true
      → (r : DerivedResult N) × (lookup code (compute_derived evaluate specs context) ≡ some r)
        × (computed r ≡ true)
  unfolding compute_derived report_pending
  compute_derived_complete specs code fresh supported bounded n =
      let start = initial context in
      let q = derive_passes evaluate max_derivation_passes specs start in
      let reached = all_passes-IsReached specs max_derivation_passes 0 specs start (record {
        explained = initial-IsExplained evaluate monotone context;
        fresh = fresh;
        grows = λ j v there. there;
        supported = supported;
        bounded = bounded;
        above = zero_above specs;
        below = HasBelow-zero specs context;
        covered = Covered-all evaluate start specs;
      }) in
      let same = sym (derive_passes-eq evaluate max_derivation_passes specs start) in
      let here : IsReached specs max_derivation_passes q.1 q.0 =
        subst (λ (r : Progress N × List DerivedSpec). IsReached specs max_derivation_passes r.1 r.0)
          same reached in
      let empty = none_pending q.1 here.bounded here.above in
      let (r, there) =
        Covered-named evaluate q.0 code specs
          (subst (λ xs. Covered evaluate specs q.0 xs) empty here.covered) n in
      let fine = (here.explained.yields code r there).0 in
      (r, rw empty there, ap (λ x. not (is_set x)) fine)
