-- ===== src/Kernel/Order/Respect.antt =====
-- What each round of `order_rules_by_dependency` of backend/ontology_platform/semantic_kernel.py
-- places, and that no rule is lost or repeated.
use mathlib.Core.List.Perm
use mathlib.Core.List.{Perm, perm_middle}
use aletheia_onto.Base.{
  ℕ, zero, suc, ◌≡◌, refl, ap, true, false, List, [], ◌∷◌, ◌++◌, arith, length, Bool-cases, inl,
  inr, Text, All,
}
use aletheia_onto.Model.{BusinessRule}
use aletheia_onto.Kernel.Order.{
  codes, pending, is_empty, round, order_from, order_rules_by_dependency,
}

-- The codes placed after `rules`.
abbrev pub place : List Text → List BusinessRule → List Text
place placed [] = placed
place placed (rule ∷ rules) = place (rule.code ∷ placed) rules

-- Nothing holds back a rule of the list when its turn comes.
abbrev pub Respects : List Text → List Text → List BusinessRule → Type 0
Respects known placed [] = Unit
Respects known placed (rule ∷ rules) =
    (is_empty (pending known placed rule) ≡ true) × Respects known (rule.code ∷ placed) rules

pub Respects-append :
    (known placed : List Text) (xs ys : List BusinessRule)
    → Respects known placed xs
    → Respects known (place placed xs) ys
    → Respects known placed (xs ++ ys)
Respects-append known placed [] ys hx hy = hy
Respects-append known placed (x ∷ xs) ys hx hy =
    (hx.0, Respects-append known (x.code ∷ placed) xs ys hx.1 hy)

module _ (known : List Text) where
  pub round-Respects :
      (rules : List BusinessRule) (placed : List Text)
      → Respects known placed (round known rules placed).ordered
  unfolding round
  round-Respects [] placed = tt
  round-Respects (rule ∷ rules) placed = elim (Bool-cases (is_empty (pending known placed rule))) [
    | inl e ↦ rw e (e, round-Respects rules (rule.code ∷ placed))
    | inr e ↦ rw e (round-Respects rules placed)
  ]

  pub round-placed :
      (rules : List BusinessRule) (placed : List Text)
      → (round known rules placed).placed ≡ place placed (round known rules placed).ordered
  unfolding round
  round-placed [] placed = refl
  round-placed (rule ∷ rules) placed = elim (Bool-cases (is_empty (pending known placed rule))) [
    | inl e ↦ rw e (round-placed rules (rule.code ∷ placed))
    | inr e ↦ rw e (round-placed rules placed)
  ]

  pub round-Perm :
      (rules : List BusinessRule) (placed : List Text)
      → Perm rules ((round known rules placed).ordered ++ (round known rules placed).deferred)
  unfolding round
  round-Perm [] placed = Perm.refl []
  round-Perm (rule ∷ rules) placed = elim (Bool-cases (is_empty (pending known placed rule))) [
    | inl e ↦ rw e (Perm.cons rule (round-Perm rules (rule.code ∷ placed)))
    | inr e ↦
        let r = round known rules placed in
        rw e (
          Perm.trans (Perm.cons rule (round-Perm rules placed))
            (Perm.symm (perm_middle r.ordered r.deferred)))
  ]

  -- A round that places nothing leaves every rule waiting.
  pub round_stuck :
      (rules : List BusinessRule) (placed : List Text)
      → is_empty (round known rules placed).ordered ≡ true
      → ((round known rules placed).deferred ≡ rules)
        × All (λ r. is_empty (pending known placed r) ≡ false) rules
  unfolding round
  round_stuck [] placed h = (refl, tt)
  round_stuck (rule ∷ rules) placed h = elim (Bool-cases (is_empty (pending known placed rule))) [
    | inl e ↦ absurd (ground (arith, h, e))
    | inr e ↦
        let h' : is_empty (round known rules placed).ordered ≡ true = rw e at h in
        let ih = round_stuck rules placed h' in rw e (ap (λ rs. rule ∷ rs) ih.0, (refl, ih.1))
  ]

  pub order_from-Perm :
      (fuel : ℕ) (rules : List BusinessRule) (placed : List Text)
      → Perm rules (order_from fuel known rules placed)
  unfolding order_from
  order_from-Perm zero rules placed = Perm.refl rules
  order_from-Perm (suc fuel) rules placed =
      let r = round known rules placed in
      let ih = order_from-Perm fuel r.deferred r.placed in
      elim (Bool-cases (is_empty r.ordered)) [
        | inl e ↦ rw (e, (round_stuck rules placed e).0) (Perm.refl rules)
        | inr e ↦ rw e (Perm.trans (round-Perm rules placed) (Perm.append_left r.ordered ih))
      ]

-- Ordering the rules of an object neither loses nor repeats one: the result is a permutation of
-- the rules, whatever dependencies they declare, cycles included.
pub order_rules_by_dependency-Perm :
    (rules : List BusinessRule) → Perm rules (order_rules_by_dependency rules)
unfolding order_rules_by_dependency
order_rules_by_dependency-Perm rules = order_from-Perm (codes rules) (length rules) rules []

-- What holds of the rules holds of those that a round places and of those that it defers.
module _ {ℓ} (P : BusinessRule → Type ℓ) (known : List Text) where
  pub round-All :
      (rules : List BusinessRule) (placed : List Text)
      → All P rules
      → All P (round known rules placed).ordered × All P (round known rules placed).deferred
  unfolding round
  round-All [] placed a = (tt, tt)
  round-All (rule ∷ rules) placed a = elim (Bool-cases (is_empty (pending known placed rule))) [
    | inl e ↦ let ih = round-All rules (rule.code ∷ placed) a.1 in rw e ((a.0, ih.0), ih.1)
    | inr e ↦ let ih = round-All rules placed a.1 in rw e (ih.0, (a.0, ih.1))
  ]

  All-append : (xs ys : List BusinessRule) → All P xs → All P ys → All P (xs ++ ys)
  All-append [] ys a b = b
  All-append (x ∷ xs) ys a b = (a.0, All-append xs ys a.1 b)

  pub order_from-All :
      (fuel : ℕ) (rules : List BusinessRule) (placed : List Text)
      → All P rules
      → All P (order_from fuel known rules placed)
  unfolding order_from
  order_from-All zero rules placed a = a
  order_from-All (suc fuel) rules placed a =
      let r = round known rules placed in
      let split = round-All rules placed a in
      elim (Bool-cases (is_empty r.ordered)) [
        | inl e ↦ rw e split.1
        | inr e ↦ rw e (
            All-append r.ordered (order_from fuel known r.deferred r.placed) split.0
              (order_from-All fuel r.deferred r.placed split.1))
      ]
