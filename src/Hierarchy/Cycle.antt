-- ===== src/Hierarchy/Cycle.antt =====
-- Declared parents never form a cycle: `declare_subtype` of
-- backend/ontology_platform/type_hierarchy.py.
use aletheia_onto.Base.{
  ℕ, zero, suc, ◌≡◌, ◌≢◌, refl, sym, fun_ext, ◌∙◌, ◌⊎◌, subst, Bool, false, some, List, [], ◌∷◌,
  ◌++◌, arith, ◌==◌, ==→eq, if◌then◌else◌, Text, All, find, Bool-cases, inl, inr, ok,
  raise_if_returned, or_raise_returned, bind_returned,
}
use aletheia_onto.Model.{
  Model, BusinessObject, object_of, is_object, ontology_of, is_published, self_subtype, no_ontology,
  frozen, no_object,
}
use aletheia_onto.Hierarchy.{
  parent_code, walk_up, refuse_cycle, set_parent, check_parent, declare_subtype,
  max_hierarchy_depth,
}

-- Going up from `c` ends.
pub data Rooted (parent : Text → Text) : Text → Type 0 where
  root : {c : Text} → parent c ≡ 0 → Rooted parent c
  up : {c : Text} → Rooted parent (parent c) → Rooted parent c

-- Going up from `c` ends, and meets `avoided` at no step above `c`.
data Free (parent : Text → Text) (avoided : Text) : Text → Type 0 where
  stop : {c : Text} → parent c ≡ 0 → Free parent avoided c
  step : {c : Text} → parent c ≢ avoided → Free parent avoided (parent c) → Free parent avoided c

walk_up-Free :
    (parent : Text → Text) (avoided : Text) (rounds : ℕ) (c : Text) (chain : List Text)
    → walk_up parent avoided rounds c chain ≡ ok tt
    → Free parent avoided c
unfolding walk_up
walk_up-Free parent avoided zero c chain e = absurd (ground arith)
walk_up-Free parent avoided (suc rounds) c chain e = elim (Bool-cases (parent c == 0)) [
  | inl ends ↦ stop (==→eq (parent c) 0 ends)
  | inr goes ↦ elim (Bool-cases (parent c == avoided)) [
    | inl meets ↦ absurd (ground arith)
    | inr misses ↦
        step (ground arith)
          (walk_up-Free parent avoided rounds (parent c) (chain ++ parent c ∷ []) (ground arith))
  ]
]

-- The parents after the object `moved` got the parent `target`.
abbrev moved_parent : (Text → Text) → Text → Text → Text → Text
moved_parent parent moved target c = if c == moved then target else parent c

module _ (parent : Text → Text) (moved target : Text) where
  abbrev IsRooted : Text → Type 0
  IsRooted = Rooted (moved_parent parent moved target)

  moved_other : (c : Text) → c ≢ moved → parent c ≡ moved_parent parent moved target c
  moved_other c ne = ground arith

  moved_self : target ≡ moved_parent parent moved target moved
  moved_self = ground arith

  Free-Rooted : {c : Text} → c ≢ moved → Free parent moved c → IsRooted c
  Free-Rooted ne (stop {c = c} e) = root (sym (moved_other c ne) ∙ e)
  Free-Rooted ne (step {c = c} nf f) = up (subst IsRooted (moved_other c ne) (Free-Rooted nf f))

  module _ (free : (target ≡ 0) ⊎ ((target ≢ moved) × Free parent moved target)) where
    self-Rooted : IsRooted moved
    self-Rooted = elim free [
      | inl none_above ↦ root (sym moved_self ∙ none_above)
      | inr (ne, f) ↦ up (subst IsRooted moved_self (Free-Rooted ne f))
    ]

    -- Where the walk from the new parent found no way to `moved`, everything still has a root.
    moved-Rooted : {c : Text} → Rooted parent c → IsRooted c
    moved-Rooted (root {c = c} e) = elim (Bool-cases (c == moved)) [
      | inl same ↦ subst IsRooted (sym (==→eq c moved same)) self-Rooted
      | inr other ↦ root (rw other e)
    ]
    moved-Rooted (up {c = c} r) = elim (Bool-cases (c == moved)) [
      | inl same ↦ subst IsRooted (sym (==→eq c moved same)) self-Rooted
      | inr other ↦ up (rw other (moved-Rooted r))
    ]

-- No two rows have one id.
abbrev pub IdsDistinct : List BusinessObject → Type 0
IdsDistinct [] = Unit
IdsDistinct (o ∷ objects) = All (λ p. p.id ≢ o.id) objects × IdsDistinct objects

set_parent_absent :
    (id : ℕ) (target : Text) (objects : List BusinessObject)
    → All (λ p. p.id ≢ id) objects
    → set_parent id target objects ≡ objects
unfolding set_parent
set_parent_absent id target [] a = refl
set_parent_absent id target (o ∷ objects) a =
    ground (arith, set_parent_absent id target objects a.1)

found_satisfies :
    {A : Type 0} (Q : A → Type 0) (p : A → Bool) (xs : List A) (y : A)
    → All Q xs
    → find p xs ≡ some y
    → Q y
found_satisfies Q p [] y a e = absurd (ground arith)
found_satisfies Q p (x ∷ xs) y a e = elim (Bool-cases (p x)) [
  | inl hit ↦ let same : x ≡ y = ground arith in subst Q same a.0
  | inr miss ↦ found_satisfies Q p xs y a.1 (ground arith)
]

-- After the update every code has the parent that it had, but for the code of the updated row.
parent_code-set_parent :
    (objects : List BusinessObject) (ontology_id : ℕ) (moved target c : Text)
    (child : BusinessObject)
    → IdsDistinct objects
    → object_of objects ontology_id moved ≡ some child
    → parent_code (set_parent child.id target objects) ontology_id c
      ≡ moved_parent (parent_code objects ontology_id) moved target c
unfolding parent_code set_parent
parent_code-set_parent [] ontology_id moved target c child d e = absurd (ground arith)
parent_code-set_parent (o ∷ objects) ontology_id moved target c child d e =
    elim (Bool-cases (is_object ontology_id moved o)) [
      | inl here ↦
          let same : child ≡ o = ground arith in
          let rest : set_parent child.id target objects ≡ objects =
            set_parent_absent child.id target objects
              (subst (λ q. All (λ p. p.id ≢ q.id) objects) (sym same) d.0) in
          ground (arith, rest)
      | inr there ↦
          let found : object_of objects ontology_id moved ≡ some child = ground arith in
          let other : child.id ≢ o.id =
            found_satisfies (λ p. p.id ≢ o.id) (is_object ontology_id moved) objects child d.0
              found in
          ground (arith, parent_code-set_parent objects ontology_id moved target c child d.1 found)
    ]

module _ (m : Model) (ontology_id : ℕ) (object_code parent actor : Text) where
  -- What an accepted declaration has gone through.
  pub declare_subtype_accepted :
      (m' : Model)
      → declare_subtype m ontology_id object_code parent actor ≡ ok m'
      → (child : BusinessObject) × (object_of m.objects ontology_id object_code ≡ some child)
        × (m'.objects ≡ set_parent child.id parent m.objects)
        × ((object_code == parent) ≡ false)
        × (check_parent m.objects ontology_id object_code parent ≡ ok tt)
  unfolding declare_subtype
  declare_subtype_accepted m' e =
      let (apart, e1) = raise_if_returned (object_code == parent) self_subtype _ m' e in
      let (o, e2, e3) = or_raise_returned (ontology_of m ontology_id) no_ontology _ m' e1 in
      let (open_ontology, e4) = raise_if_returned (is_published o.status) frozen _ m' e3 in
      let (child, e5, e6) =
        or_raise_returned (object_of m.objects ontology_id object_code) no_object _ m' e4 in
      let (u, e7, e8) =
        bind_returned (check_parent m.objects ontology_id object_code parent) _ m' e6 in
      (child, e5, ground arith, apart, e7)

  checked-Free :
      check_parent m.objects ontology_id object_code parent ≡ ok tt
      → (object_code == parent) ≡ false
      → (parent ≡ 0)
        ⊎ ((parent ≢ object_code) × Free (parent_code m.objects ontology_id) object_code parent)
  unfolding check_parent refuse_cycle
  checked-Free checked apart = elim (Bool-cases (parent == 0)) [
    | inl none_above ↦ inl (==→eq parent 0 none_above)
    | inr named ↦
        let (o, e, walked) =
          or_raise_returned (object_of m.objects ontology_id parent) no_object _ tt
            (rw named at checked) in
        inr (
          ground arith,
          walk_up-Free (parent_code m.objects ontology_id) object_code max_hierarchy_depth parent
              (parent ∷ []) walked,
        )
  ]

  -- If every object's line of parents ends, the ids of the rows are distinct and the declaration is
  -- accepted, every object's line of parents still ends.
  pub declare_subtype-Rooted :
      (m' : Model)
      → IdsDistinct m.objects
      → ((c : Text) → Rooted (parent_code m.objects ontology_id) c)
      → declare_subtype m ontology_id object_code parent actor ≡ ok m'
      → (c : Text) → Rooted (parent_code m'.objects ontology_id) c
  declare_subtype-Rooted m' d rooted accepted c =
      let (child, found, moved, apart, checked) = declare_subtype_accepted m' accepted in
      let before = parent_code m.objects ontology_id in
      let after : parent_code m'.objects ontology_id ≡ moved_parent before object_code parent =
        fun_ext (λ x.
          rw moved
            (parent_code-set_parent m.objects ontology_id object_code parent x child d found)) in
      subst (λ f. Rooted f c) (sym after)
        (moved-Rooted before object_code parent (checked-Free checked apart) (rooted c))
