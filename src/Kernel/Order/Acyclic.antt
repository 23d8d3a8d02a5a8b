-- ===== src/Kernel/Order/Acyclic.antt =====
-- The order that `order_rules_by_dependency` of backend/ontology_platform/semantic_kernel.py gives
-- when the declared dependencies have no cycle.
use aletheia_onto.Base.{
  ℕ, zero, suc, ◌+◌, ◌≤◌, ◌<◌, ◌≡◌, refl, sym, subst, true, false, not, ◌&&◌, List, [], ◌∷◌, arith,
  length, Bool-cases, inl, inr, ◌==◌, ==→eq, ==-refl, contains, keep, Text, All,
}
use aletheia_onto.Model.{BusinessRule}
use aletheia_onto.Kernel.Order.{
  codes, pending, is_empty, round, order_from, order_rules_by_dependency,
}
use aletheia_onto.Kernel.Order.Respect.{
  Respects, Respects-append, round-Respects, round-placed, round_stuck, round-All,
}

-- Every dependency of the rules has a smaller rank than the rule that declares it.
abbrev pub Ranked : (Text → ℕ) → List BusinessRule → Type 0
Ranked rank = All (λ rule. All (λ c. rank c < rank rule.code) rule.depends_on)

module _ (rank : Text → ℕ) (known : List Text) where
  -- A known code is placed, or is that of a rule that remains.
  abbrev pub Covered : List Text → List BusinessRule → Type 0
  Covered placed rules =
      (c : Text)
      → contains c known ≡ true
      → contains c placed ≡ false
      → contains c (codes rules) ≡ true

  -- A rule that is held back has a smaller rule that remains.
  waits_for :
      (placed : List Text) (rule : BusinessRule) (rules : List BusinessRule) (n : ℕ)
      → Covered placed rules
      → (deps : List Text) → All (λ c. rank c < n) deps
      → is_empty
          (keep (λ c. contains c known && (not (contains c placed) && not (c == rule.code))) deps)
        ≡ false
      → (c : Text) × (contains c (codes rules) ≡ true) × (rank c < n)
  waits_for placed rule rules n cov [] a h = absurd (ground arith)
  waits_for placed rule rules n cov (d ∷ deps) a h = elim (Bool-cases (contains d known)) [
    | inr e ↦ waits_for placed rule rules n cov deps a.1 (rw e at h)
    | inl e ↦ elim (Bool-cases (contains d placed)) [
      | inr f ↦ (d, cov d e f, a.0)
      | inl f ↦ waits_for placed rule rules n cov deps a.1 (rw (e, f) at h)
    ]
  ]

  abbrev Held : List Text → List BusinessRule → Type 0
  Held placed = All (λ r. is_empty (pending known placed r) ≡ false)

  smaller :
      (placed : List Text) (all rules : List BusinessRule) (c : Text)
      → Covered placed all
      → Ranked rank rules
      → Held placed rules
      → contains c (codes rules) ≡ true
      → (d : Text) × (contains d (codes all) ≡ true) × (rank d < rank c)
  unfolding pending
  smaller placed all [] c cov ranked held h = absurd (ground arith)
  smaller placed all (r ∷ rules) c cov ranked held h = elim (Bool-cases (c == r.code)) [
    | inl e ↦
        let (d, m, lt) = waits_for placed r all (rank r.code) cov r.depends_on ranked.0 held.0 in
        (d, m, subst (λ x. rank d < rank x) (sym (==→eq c r.code e)) lt)
    | inr e ↦ smaller placed all rules c cov ranked.1 held.1 (rw e at h)
  ]

  -- If every rule of a list is held back, the list is empty.
  none-Held :
      (n : ℕ) (placed : List Text) (rules : List BusinessRule) (c : Text)
      → Covered placed rules
      → Ranked rank rules
      → Held placed rules
      → contains c (codes rules) ≡ true
      → rank c < n
      → ⊥
  none-Held zero placed rules c cov ranked held h lt = omega arith
  none-Held (suc n) placed rules c cov ranked held h lt =
      let (d, m, below) = smaller placed rules rules c cov ranked held h in
      none-Held n placed rules d cov ranked held m (omega arith)

  pub all_placed :
      (placed : List Text) (rules : List BusinessRule)
      → Covered placed rules
      → Ranked rank rules
      → Held placed rules
      → rules ≡ []
  all_placed placed [] cov ranked held = refl
  all_placed placed (r ∷ rules) cov ranked held = absurd (
      none-Held (suc (rank r.code)) placed (r ∷ rules) r.code cov ranked held
        (ground (arith, ==-refl r.code)) (omega arith))

  pub round-Covered :
      (rules : List BusinessRule) (placed : List Text) (c : Text)
      → (contains c placed ≡ false → contains c (codes rules) ≡ true)
      → contains c (round known rules placed).placed ≡ false
      → contains c (codes (round known rules placed).deferred) ≡ true
  unfolding round
  round-Covered [] placed c cov h = cov h
  round-Covered (rule ∷ rules) placed c cov h =
      elim (Bool-cases (is_empty (pending known placed rule))) [
        | inl e ↦
            let h' : contains c (round known rules (rule.code ∷ placed)).placed ≡ false =
              rw e at h in
            rw e (
              round-Covered rules (rule.code ∷ placed) c (λ absent. ground (arith, cov, absent)) h')
        | inr e ↦
            let h' : contains c (round known rules placed).placed ≡ false = rw e at h in
            rw e (elim (Bool-cases (c == rule.code)) [
              | inl same ↦ rw same refl
              | inr other ↦
                  rw other (round-Covered rules placed c (λ absent. rw other at cov absent) h')
            ])
      ]

  pub length-round :
      (rules : List BusinessRule) (placed : List Text)
      → length (round known rules placed).ordered + length (round known rules placed).deferred
        ≡ length rules
  unfolding round
  length-round [] placed = refl
  length-round (rule ∷ rules) placed = elim (Bool-cases (is_empty (pending known placed rule))) [
    | inl e ↦ rw e (omega (arith, length-round rules (rule.code ∷ placed)))
    | inr e ↦ rw e (omega (arith, length-round rules placed))
  ]

  length-pos : (rules : List BusinessRule) → is_empty rules ≡ false → 1 ≤ length rules
  length-pos [] h = absurd (ground arith)
  length-pos (r ∷ rules) h = omega arith

  pub order_from-Respects :
      (fuel : ℕ) (rules : List BusinessRule) (placed : List Text)
      → length rules ≤ fuel
      → Covered placed rules
      → Ranked rank rules
      → Respects known placed (order_from fuel known rules placed)
  unfolding order_from
  order_from-Respects zero [] placed enough cov ranked = tt
  order_from-Respects zero (r ∷ rules) placed enough cov ranked = absurd (omega arith)
  order_from-Respects (suc fuel) rules placed enough cov ranked =
      let r = round known rules placed in
      let split =
        round-All (λ rule. All (λ c. rank c < rank rule.code) rule.depends_on) known rules placed
          ranked in
      elim (Bool-cases (is_empty r.ordered)) [
        | inl e ↦
            let stuck = round_stuck known rules placed e in
            rw (e, stuck.0, all_placed placed rules cov ranked stuck.1) tt
        | inr e ↦
            let later =
              order_from-Respects fuel r.deferred r.placed
                (omega (arith, length-round rules placed, length-pos r.ordered e))
                (λ c k. round-Covered rules placed c (cov c k)) split.1 in
            rw e (
              Respects-append known placed r.ordered (order_from fuel known r.deferred r.placed)
                (round-Respects known rules placed)
                (subst (λ p. Respects known p (order_from fuel known r.deferred r.placed))
                  (round-placed known rules placed) later))
      ]

-- When the dependencies have no cycle (each has a smaller rank than the rule that declares it,
-- for some ranking of the codes), every rule is placed after all of its dependencies that are
-- codes of the given rules.
pub order_rules_by_dependency-Respects :
    (rank : Text → ℕ) (rules : List BusinessRule)
    → Ranked rank rules
    → Respects (codes rules) [] (order_rules_by_dependency rules)
unfolding order_rules_by_dependency
order_rules_by_dependency-Respects rank rules ranked =
    order_from-Respects rank (codes rules) (length rules) rules [] (omega arith) (λ c k absent. k)
      ranked
