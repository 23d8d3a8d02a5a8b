-- ===== src/Hierarchy/Chain.antt =====
-- The ancestors that `ancestors_of` of backend/ontology_platform/type_hierarchy.py returns, over
-- any table of parents.
use aletheia_onto.Base.{
  ℕ, zero, suc, ◌<◌, ◌≡◌, ◌≢◌, refl, ap, sym, subst, false, List, [], ◌∷◌, arith, length, min, ◌==◌,
  ==→eq, Text, contains, All, Bool-cases, inl, inr,
}
use aletheia_onto.Model.{BusinessObject}
use aletheia_onto.Hierarchy.{parent_code, climb, ancestors_of, max_hierarchy_depth}

-- Each code is the parent of the one before it, and none is empty.
abbrev pub IsLineage : (Text → Text) → Text → List Text → Type 0
IsLineage parent c [] = Unit
IsLineage parent c (p ∷ ps) = (p ≡ parent c) × (p ≢ 0) × IsLineage parent p ps

-- `c` has exactly `k` ancestors above it, the last of which has no parent.
pub data Depth (parent : Text → Text) : Text → ℕ → Type 0 where
  top : {c : Text} → parent c ≡ 0 → Depth parent c 0
  below : {c : Text} {k : ℕ} → parent c ≢ 0 → Depth parent (parent c) k → Depth parent c (suc k)

module _ (parent : Text → Text) where
  pub climb-IsLineage :
      (rounds : ℕ) (c : Text) (seen : List Text) → IsLineage parent c (climb parent rounds c seen)
  unfolding climb
  climb-IsLineage zero c seen = tt
  climb-IsLineage (suc rounds) c seen =
      ground (arith, climb-IsLineage rounds (parent c) (parent c ∷ seen))

  pub Depth-unique : {c : Text} {j k : ℕ} → Depth parent c j → Depth parent c k → j ≡ k
  Depth-unique (top e) (top f) = refl
  Depth-unique (top e) (below ne d) = absurd (ne e)
  Depth-unique (below ne d) (top e) = absurd (ne e)
  Depth-unique (below ne d) (below nf e) = ap suc (Depth-unique d e)

  -- Codes that lie deeper than `k`.
  abbrev Deeper : ℕ → List Text → Type 0
  Deeper k seen = All (λ s. (j : ℕ) × (k < j) × Depth parent s j) seen

  not_seen :
      (c : Text) (k : ℕ) (seen : List Text)
      → Depth parent c k
      → Deeper k seen
      → contains c seen ≡ false
  not_seen c k [] d a = refl
  not_seen c k (s ∷ seen) d a = elim (Bool-cases (c == s)) [
    | inl same ↦
        let (j, lt, deep) = a.0 in
        let here : Depth parent c j = subst (λ x. Depth parent x j) (sym (==→eq c s same)) deep in
        absurd (omega (arith, Depth-unique here d))
    | inr other ↦ rw other (not_seen c k seen d a.1)
  ]

  Deeper-weaken : (k : ℕ) (seen : List Text) → Deeper (suc k) seen → Deeper k seen
  Deeper-weaken k [] a = tt
  Deeper-weaken k (s ∷ seen) a =
      let (j, lt, d) = a.0 in ((j, omega arith, d), Deeper-weaken k seen a.1)

  length-climb :
      (rounds : ℕ) (c : Text) (k : ℕ) (seen : List Text)
      → Depth parent c k
      → Deeper k seen
      → length (climb parent rounds c (c ∷ seen)) ≡ min k rounds
  unfolding climb
  length-climb zero c k seen d a = omega arith
  length-climb (suc rounds) c zero seen (top e) a = ground arith
  length-climb (suc rounds) c (suc k) seen (below ne d) a =
      let fresh =
        not_seen (parent c) k (c ∷ seen) d
          ((suc k, omega arith, below ne d), Deeper-weaken k seen a) in
      ground (
        arith,
        fresh,
        length-climb rounds (parent c) k (c ∷ seen) d
            ((suc k, omega arith, below ne d), Deeper-weaken k seen a),
      )

module _ (objects : List BusinessObject) (ontology_id : ℕ) (c : Text) where
  -- The answer climbs the declared parents from the object on, and of an object with `k` ancestors
  -- it holds the nearest sixteen: all of them exactly if `k` is at most sixteen.
  pub ancestors_of_nearest :
      (k : ℕ)
      → Depth (parent_code objects ontology_id) c k
      → IsLineage (parent_code objects ontology_id) c (ancestors_of objects ontology_id c)
        × (length (ancestors_of objects ontology_id c) ≡ min k max_hierarchy_depth)
  unfolding ancestors_of
  ancestors_of_nearest k d = (
    climb-IsLineage (parent_code objects ontology_id) max_hierarchy_depth c (c ∷ []),
    length-climb (parent_code objects ontology_id) max_hierarchy_depth c k [] d tt,
  )
