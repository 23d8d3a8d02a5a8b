-- ===== src/Derived/Exits.antt =====
-- The early exits of the passes of backend/ontology_platform/derived_attributes.py, and the
-- attributes that a pass leaves pending.
use aletheia_onto.Base.{
  ℕ, zero, suc, ◌≤◌, ◌≡◌, refl, sym, ◌∙◌, ap, subst, Bool, true, false, some, List, [], ◌∷◌, arith,
  ◌==◌, ==→eq, if◌then◌else◌, length, Bool-cases, ◌⊎◌, inl, inr, Text, lookup, lookup-insert,
}
use aletheia_onto.Derived.{
  Value, DerivedSpec, DerivedResult, Sandbox, Progress, computed_result, add_value, derive_pass,
  derive_passes,
}
use aletheia_onto.Derived.Passes.{Result-cases, derive_pass_ok, derive_pass_err}

-- `code in [spec.code for spec in specs]`
abbrev pub named : Text → List DerivedSpec → Bool
named code [] = false
named code (s ∷ specs) = if code == s.code then true else named code specs

module _ {N : Type 0} (evaluate : Sandbox N) where
  length-derive_pass-le :
      (specs : List DerivedSpec) (p : Progress N)
      → length (derive_pass evaluate specs p).1 ≤ length specs
  unfolding derive_pass
  length-derive_pass-le [] p = omega arith
  length-derive_pass-le (s ∷ specs) p = elim (Result-cases (evaluate s.expression p.working)) [
    | inl (v, e) ↦
        let ih = length-derive_pass-le specs (add_value s v p) in
        rw (derive_pass_ok evaluate s specs p v e) (omega (arith, ih))
    | inr (x, e) ↦
        let ih = length-derive_pass-le specs p in
        rw (derive_pass_err evaluate s specs p x e) (omega (arith, ih))
  ]

  -- A pass that defers as many as were pending has changed nothing.
  idle_pass :
      (specs : List DerivedSpec) (p : Progress N)
      → length (derive_pass evaluate specs p).1 ≡ length specs
      → derive_pass evaluate specs p ≡ (p, specs)
  unfolding derive_pass
  idle_pass [] p h = refl
  idle_pass (s ∷ specs) p h = elim (Result-cases (evaluate s.expression p.working)) [
    | inl (v, e) ↦
        let le = length-derive_pass-le specs (add_value s v p) in
        let same = derive_pass_ok evaluate s specs p v e in
        let count : length (derive_pass evaluate specs (add_value s v p)).1 ≡ suc (length specs) =
          ap (λ (q : Progress N × List DerivedSpec). length q.1) (sym same) ∙ h in
        absurd (omega (arith, count, le))
    | inr (x, e) ↦
        let same = derive_pass_err evaluate s specs p x e in
        let count : suc (length (derive_pass evaluate specs p).1) ≡ suc (length specs) =
          ap (λ (q : Progress N × List DerivedSpec). length q.1) (sym same) ∙ h in
        same
        ∙ ap (λ (q : Progress N × List DerivedSpec). (q.0, s ∷ q.1))
            (idle_pass specs p (omega (arith, count)))
  ]

  -- The passes without the two early exits.
  unfoldable pub all_passes : ℕ → List DerivedSpec → Progress N → Progress N × List DerivedSpec
  all_passes zero pending p = (p, pending)
  all_passes (suc passes) pending p =
      all_passes passes (derive_pass evaluate pending p).1 (derive_pass evaluate pending p).0

  all_passes_idle :
      (passes : ℕ) (pending : List DerivedSpec) (p : Progress N)
      → derive_pass evaluate pending p ≡ (p, pending)
      → all_passes passes pending p ≡ (p, pending)
  unfolding all_passes
  all_passes_idle zero pending p h = refl
  all_passes_idle (suc passes) pending p h =
      ap (λ (q : Progress N × List DerivedSpec). all_passes passes q.1 q.0) h
      ∙ all_passes_idle passes pending p h

  pub derive_passes-eq :
      (passes : ℕ) (pending : List DerivedSpec) (p : Progress N)
      → derive_passes evaluate passes pending p ≡ all_passes passes pending p
  unfolding derive_passes all_passes
  derive_passes-eq zero pending p = refl
  derive_passes-eq (suc passes) [] p = sym (all_passes_idle passes [] p refl)
  derive_passes-eq (suc passes) (s ∷ specs) p =
      let q = derive_pass evaluate (s ∷ specs) p in
      elim (Bool-cases (length q.1 == suc (length specs))) [
        | inr e ↦ rw e (derive_passes-eq passes q.1 q.0)
        | inl e ↦
            let idle = idle_pass (s ∷ specs) p (==→eq (length q.1) (suc (length specs)) e) in
            let still : derive_pass evaluate q.1 q.0 ≡ q =
              ap (λ (r : Progress N × List DerivedSpec). derive_pass evaluate r.1 r.0) idle
              ∙ (idle ∙ sym idle) in
            rw e (sym (all_passes_idle passes q.1 q.0 still))
      ]

  -- The attribute has a result.
  abbrev pub Has : Progress N → Text → Type 0
  Has p code = (r : DerivedResult N) × (lookup code p.results ≡ some r)

  Has-add_value :
      (s : DerivedSpec) (v : Value N) (p : Progress N) (code : Text)
      → (Has p code ⊎ ((code == s.code) ≡ true))
      → Has (add_value s v p) code
  unfolding add_value
  Has-add_value s v p code h = elim (Bool-cases (code == s.code)) [
    | inl e ↦
        (computed_result s v, lookup-insert code s.code (computed_result s v) p.results ∙ rw e refl)
    | inr e ↦ elim h [
      | inl (r, there) ↦ (r, lookup-insert code s.code (computed_result s v) p.results ∙ rw e there)
      | inr f ↦ absurd (ground (arith, e, f))
    ]
  ]

  -- No attribute is lost in a pass.
  pub derive_pass-Has :
      (specs : List DerivedSpec) (p : Progress N) (code : Text)
      → (Has p code ⊎ (named code specs ≡ true))
      → Has (derive_pass evaluate specs p).0 code
        ⊎ (named code (derive_pass evaluate specs p).1 ≡ true)
  unfolding derive_pass
  derive_pass-Has [] p code h = h
  derive_pass-Has (s ∷ specs) p code h = elim (Result-cases (evaluate s.expression p.working)) [
    | inl (v, e) ↦
        let before : Has (add_value s v p) code ⊎ (named code specs ≡ true) = elim h [
          | inl has ↦ inl (Has-add_value s v p code (inl has))
          | inr n ↦ elim (Bool-cases (code == s.code)) [
            | inl c ↦ inl (Has-add_value s v p code (inr c))
            | inr c ↦ inr (rw c at n)
          ]
        ] in
        subst (λ (q : Progress N × List DerivedSpec). Has q.0 code ⊎ (named code q.1 ≡ true))
          (sym (derive_pass_ok evaluate s specs p v e))
          (derive_pass-Has specs (add_value s v p) code before)
    | inr (x, e) ↦
        let (q0, q1) = derive_pass evaluate specs p in
        subst (λ (q : Progress N × List DerivedSpec). Has q.0 code ⊎ (named code q.1 ≡ true))
          (sym (derive_pass_err evaluate s specs p x e))
          (elim (Bool-cases (code == s.code)) [
            | inl c ↦ inr (rw c refl)
            | inr c ↦
                let before : Has p code ⊎ (named code specs ≡ true) = elim h [
                  | inl has ↦ inl has
                  | inr n ↦ inr (rw c at n)
                ] in
                elim (derive_pass-Has specs p code before) [
                  | inl has ↦ inl has
                  | inr n ↦ inr (rw c n)
                ]
          ])
  ]
