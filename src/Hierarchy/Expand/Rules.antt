-- ===== src/Hierarchy/Expand/Rules.antt =====
-- Which rules an expansion holds: `expand` of backend/ontology_platform/type_hierarchy.py.
use aletheia_onto.Base.{
  ℕ, ◌≡◌, refl, Bool, true, false, not, ◌&&◌, ◌||◌, List, [], ◌∷◌, ◌++◌, arith, ◌==◌, Text, is_set,
  any, Dict, lookup-snoc,
}
use aletheia_onto.Model.{Model}
use aletheia_onto.Hierarchy.{ancestors_of, inherited_rule_scopes}
use aletheia_onto.Hierarchy.Expand.{
  InheritedRule, setdefault, supersede, supersede_all, collect, collect_all, with_override_note,
  has_key, effective, rule_declarations, expand,
}

-- Some declaration of the source has the code; some declaration of the source overrides it.
unfoldable pub declares : Text → List (Text × Text) → Bool
declares c = any (λ e. c == e.0)

unfoldable pub overrides : Text → List (Text × Text) → Bool
overrides c = any (λ e. is_set e.1 && (c == e.1))

-- Some rule of the list has the code.
abbrev pub has_code : Text → List InheritedRule → Bool
has_code c = any (λ r. c == r.code)

has_key-setdefault :
    (c key value : Text) (d : Dict Text)
    → has_key c (setdefault key value d) ≡ has_key c d || (c == key)
unfolding setdefault
has_key-setdefault c key value d = ground (arith, lookup-snoc c key value d)

has_key-supersede :
    (c source : Text) (declared : List (Text × Text)) (d : Dict Text)
    → has_key c (supersede source declared d) ≡ has_key c d || overrides c declared
unfolding supersede overrides
has_key-supersede c source [] d = ground arith
has_key-supersede c source ((code, o) ∷ declared) d = ground (
  arith,
  has_key-supersede c source declared (setdefault o source d),
  has_key-supersede c source declared d,
  has_key-setdefault c o source d,
)

has_key-supersede_all :
    (c : Text) (declarations : Text → List (Text × Text)) (sources : List Text) (d : Dict Text)
    → has_key c (supersede_all declarations sources d)
      ≡ has_key c d || any (λ s. overrides c (declarations s)) sources
unfolding supersede_all
has_key-supersede_all c declarations [] d = ground arith
has_key-supersede_all c declarations (s ∷ sources) d = ground (
  arith,
  has_key-supersede_all c declarations sources (supersede s (declarations s) d),
  has_key-supersede c s (declarations s) d,
)

has_code-append :
    (c : Text) (xs ys : List InheritedRule) → has_code c (xs ++ ys) ≡ has_code c xs || has_code c ys
has_code-append c [] ys = refl
has_code-append c (x ∷ xs) ys = ground (arith, has_code-append c xs ys)

has_code-collect :
    (c : Text) (inherited : Bool) (source : Text) (declared : List (Text × Text))
    → has_code c (collect inherited source declared) ≡ declares c declared
unfolding declares
has_code-collect c inherited source [] = refl
has_code-collect c inherited source (e ∷ declared) =
    ground (arith, has_code-collect c inherited source declared)

has_code-collect_all :
    (c : Text) (declarations : Text → List (Text × Text)) (sources : List Text)
    → has_code c (collect_all declarations sources) ≡ any (λ s. declares c (declarations s)) sources
unfolding collect_all
has_code-collect_all c declarations [] = refl
has_code-collect_all c declarations (s ∷ sources) = ground (
  arith,
  has_code-append c (collect true s (declarations s)) (collect_all declarations sources),
  has_code-collect c true s (declarations s),
  has_code-collect_all c declarations sources,
)

-- A note does not change a rule's code.
code-note : (d : Dict Text) (r : InheritedRule) → (with_override_note d r).code ≡ r.code
unfolding with_override_note
code-note d r = ground arith

has_code-effective :
    (c : Text) (d : Dict Text) (rules : List InheritedRule)
    → has_code c (effective d rules) ≡ has_code c rules && not (has_key c d)
unfolding effective
has_code-effective c d [] = refl
has_code-effective c d (r ∷ rules) = ground (arith, has_code-effective c d rules, code-note d r)

-- The expansion holds a rule exactly if the object or one of its ancestors declares it, and no
-- rule that the object or one of its ancestors declares overrides it.
pub expand_rule :
    (m : Model) (ontology_id : ℕ) (object_code c : Text)
    → let scopes = inherited_rule_scopes m.objects ontology_id object_code in
      let declared = rule_declarations m.rules ontology_id in
      has_code c (expand m ontology_id object_code).rules
      ≡ any (λ s. declares c (declared s)) scopes
        && not (any (λ s. overrides c (declared s)) scopes)
unfolding expand inherited_rule_scopes
expand_rule m ontology_id object_code c =
    let declared = rule_declarations m.rules ontology_id in
    let above = ancestors_of m.objects ontology_id object_code in
    let own = collect false object_code (declared object_code) in
    ground (
      arith,
      has_code-effective c (supersede_all declared (object_code ∷ above) [])
          (own ++ collect_all declared above),
      has_code-append c own (collect_all declared above),
      has_code-collect c false object_code (declared object_code),
      has_code-collect_all c declared above,
      has_key-supersede_all c declared (object_code ∷ above) [],
    )
