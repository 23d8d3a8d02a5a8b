-- ===== src/Hierarchy/Expand/Attributes.antt =====
-- An attribute belongs to the nearest type that declares it: `expand` of
-- backend/ontology_platform/type_hierarchy.py.
use aletheia_onto.Base.{
  ℕ, ◌≡◌, Option, none, some, List, [], ◌∷◌, arith, ◌==◌, if◌then◌else◌, Text, contains, find, Dict,
  lookup, lookup-snoc,
}
use aletheia_onto.Model.{Model}
use aletheia_onto.Hierarchy.{ancestors_of, inherited_rule_scopes}
use aletheia_onto.Hierarchy.Expand.{setdefault, shadow, shadow_all, attribute_codes, expand}

-- The first of two answers.
abbrev or_else : Option Text → Option Text → Option Text
or_else none b = b
or_else (some a) b = some a

lookup-setdefault :
    (a key value : Text) (d : Dict Text)
    → lookup a (setdefault key value d)
      ≡ or_else (lookup a d) (if a == key then some value else none)
unfolding setdefault
lookup-setdefault a key value d = ground (arith, lookup-snoc a key value d)

lookup-shadow :
    (a source : Text) (codes : List Text) (d : Dict Text)
    → lookup a (shadow source codes d)
      ≡ or_else (lookup a d) (if contains a codes then some source else none)
unfolding shadow
lookup-shadow a source [] d = ground arith
lookup-shadow a source (c ∷ codes) d =
    ground
      (arith, lookup-shadow a source codes (setdefault c source d), lookup-setdefault a c source d)

lookup-shadow_all :
    (a : Text) (codes : Text → List Text) (sources : List Text) (d : Dict Text)
    → lookup a (shadow_all codes sources d)
      ≡ or_else (lookup a d) (find (λ s. contains a (codes s)) sources)
unfolding shadow_all
lookup-shadow_all a codes [] d = ground arith
lookup-shadow_all a codes (s ∷ sources) d =
    ground (
      arith,
      lookup-shadow_all a codes sources (shadow s (codes s) d),
      lookup-shadow a s (codes s) d,
    )

-- The expansion gives an attribute to the first of the object and its ancestors, nearest first,
-- that declares it, and has no attribute that none of them declares.
pub expand_attribute :
    (m : Model) (ontology_id : ℕ) (object_code a : Text)
    → lookup a (expand m ontology_id object_code).attributes
      ≡ find
          (λ s. contains a (attribute_codes m ontology_id s))
          (inherited_rule_scopes m.objects ontology_id object_code)
unfolding expand inherited_rule_scopes
expand_attribute m ontology_id object_code a =
    lookup-shadow_all a (attribute_codes m ontology_id)
      (object_code ∷ ancestors_of m.objects ontology_id object_code) []
