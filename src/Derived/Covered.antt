-- ===== src/Derived/Covered.antt =====
-- Which attributes the passes of backend/ontology_platform/derived_attributes.py keep track of.
use aletheia_onto.Base.{
  ◌≡◌, sym, subst, true, List, [], ◌∷◌, arith, All, ◌==◌, ==→eq, Bool-cases, ◌⊎◌, inl, inr, Text,
}
use aletheia_onto.Derived.{DerivedSpec, Sandbox, Progress, add_value, derive_pass}
use aletheia_onto.Derived.Passes.{Result-cases, derive_pass_ok, derive_pass_err}
use aletheia_onto.Derived.Exits.{named, Has, derive_pass-Has}

module _ {N : Type 0} (evaluate : Sandbox N) where
  -- Every attribute has a result or is pending.
  abbrev pub Covered : List DerivedSpec → Progress N → List DerivedSpec → Type 0
  Covered all p pending = All (λ t. Has evaluate p t.code ⊎ (named t.code pending ≡ true)) all

  pub Covered-pass :
      (all pending : List DerivedSpec) (p : Progress N)
      → Covered all p pending
      → Covered all (derive_pass evaluate pending p).0 (derive_pass evaluate pending p).1
  Covered-pass [] pending p c = tt
  Covered-pass (t ∷ all) pending p c =
      (derive_pass-Has evaluate pending p t.code c.0, Covered-pass all pending p c.1)

  Covered-weaken :
      (p : Progress N) (s : DerivedSpec) (all pending : List DerivedSpec)
      → Covered all p pending
      → Covered all p (s ∷ pending)
  Covered-weaken p s [] pending c = tt
  Covered-weaken p s (t ∷ all) pending c = (
    elim c.0 [ inl has ↦ inl has | inr n ↦ inr (ground (arith, n)) ],
    Covered-weaken p s all pending c.1,
  )

  pub Covered-all : (p : Progress N) (specs : List DerivedSpec) → Covered specs p specs
  Covered-all p [] = tt
  Covered-all p (s ∷ specs) =
      (inr (ground arith), Covered-weaken p s specs specs (Covered-all p specs))

  pub Covered-named :
      (p : Progress N) (code : Text) (all : List DerivedSpec)
      → Covered all p []
      → named code all ≡ true
      → Has evaluate p code
  Covered-named p code [] c n = absurd (ground (arith, n))
  Covered-named p code (s ∷ all) c n = elim (Bool-cases (code == s.code)) [
    | inr e ↦ Covered-named p code all c.1 (rw e at n)
    | inl e ↦
        subst (Has evaluate p) (sym (==→eq code s.code e))
          (elim c.0 [ inl has ↦ has | inr m ↦ absurd (ground (arith, m)) ])
  ]

  pub derive_pass-All :
      (P : DerivedSpec → Type 0) (specs : List DerivedSpec) (p : Progress N)
      → All P specs
      → All P (derive_pass evaluate specs p).1
  unfolding derive_pass
  derive_pass-All P [] p a = tt
  derive_pass-All P (s ∷ specs) p a = elim (Result-cases (evaluate s.expression p.working)) [
    | inl (v, e) ↦
        subst (λ (q : Progress N × List DerivedSpec). All P q.1)
          (sym (derive_pass_ok evaluate s specs p v e))
          (derive_pass-All P specs (add_value s v p) a.1)
    | inr (x, e) ↦
        subst (λ (q : Progress N × List DerivedSpec). All P q.1)
          (sym (derive_pass_err evaluate s specs p x e)) (a.0, derive_pass-All P specs p a.1)
  ]
