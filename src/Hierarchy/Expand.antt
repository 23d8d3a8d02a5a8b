-- ===== src/Hierarchy/Expand.antt =====
-- The rules and attributes of an object with those that it inherits: `expand` of
-- backend/ontology_platform/type_hierarchy.py.
pub mod Rules
pub mod Attributes
use aletheia_onto.Base.{
  ℕ, Bool, true, false, not, Option, none, some, List, [], ◌∷◌, ◌++◌, map, ◌==◌, ◌&&◌,
  if◌then◌else◌, Text, is_set, contains, keep, Dict, lookup, leb, find,
}
use aletheia_onto.Model.{Model, BusinessObject, BusinessAttribute, BusinessRule}
use aletheia_onto.Hierarchy.{ancestors_of}

pub record InheritedRule : Type 0 where
  pub code : Text
  pub origin_object_code : Text
  pub inherited : Bool
  -- The sorted codes, which the source joins into one text.
  pub overridden_from : List Text

pub record Expansion : Type 0 where
  pub object_code : Text
  pub ancestors : List Text
  pub rules : List InheritedRule
  pub attributes : Dict Text

-- `order by code`
unfoldable pub insert_sorted : Text × Text → List (Text × Text) → List (Text × Text)
insert_sorted e [] = e ∷ []
insert_sorted e (f ∷ fs) = if leb e.0 f.0 then e ∷ f ∷ fs else f ∷ insert_sorted e fs

unfoldable pub sort_by_code : List (Text × Text) → List (Text × Text)
unfolding insert_sorted
sort_by_code [] = []
sort_by_code (e ∷ es) = insert_sorted e (sort_by_code es)

-- The codes of the rules that are scoped to an object, each with the code that it overrides.
unfoldable pub rule_declarations : List BusinessRule → ℕ → Text → List (Text × Text)
unfolding sort_by_code
rule_declarations rules ontology_id object_code = sort_by_code (
    map (λ r. (r.code, r.overrides))
      (keep (λ r. (r.ontology_id == ontology_id) && (r.scope_object_code == object_code)) rules))

unfoldable pub insert_text : Text → List Text → List Text
insert_text e [] = e ∷ []
insert_text e (f ∷ fs) = if leb e f then e ∷ f ∷ fs else f ∷ insert_text e fs

unfoldable pub sort_texts : List Text → List Text
unfolding insert_text
sort_texts [] = []
sort_texts (e ∷ es) = insert_text e (sort_texts es)

-- The codes of an object's attributes, in order.
unfoldable pub attribute_codes : Model → ℕ → Text → List Text
unfolding sort_texts
attribute_codes m ontology_id object_code = sort_texts (
    map (λ a. a.code)
      (keep
        (λ a.
          elim (find
            (λ o.
              (o.id == a.object_id) && ((o.ontology_id == ontology_id) && (o.code == object_code)))
            m.objects) [ none ↦ false | some _ ↦ true ])
        m.attributes))

-- `d.setdefault(key, value)`
unfoldable pub setdefault : Text → Text → Dict Text → Dict Text
setdefault key value d = elim (lookup key d) [ none ↦ d ++ (key, value) ∷ [] | some _ ↦ d ]

-- The inner loop of `expand`, for one source: what its rules supersede.
unfoldable pub supersede : Text → List (Text × Text) → Dict Text → Dict Text
unfolding setdefault
supersede source [] d = d
supersede source ((code, overrides) ∷ declared) d =
    supersede source declared (if is_set overrides then setdefault overrides source d else d)

unfoldable pub supersede_all : (Text → List (Text × Text)) → List Text → Dict Text → Dict Text
unfolding supersede
supersede_all declarations [] d = d
supersede_all declarations (s ∷ sources) d =
    supersede_all declarations sources (supersede s (declarations s) d)

-- The rules of one source, as `collected` holds them.
abbrev pub collect : Bool → Text → List (Text × Text) → List InheritedRule
collect inherited source declared =
    map
      (λ e. record {
        code = e.0;
        origin_object_code = source;
        inherited = inherited;
        overridden_from = [];
      })
      declared

unfoldable pub collect_all : (Text → List (Text × Text)) → List Text → List InheritedRule
collect_all declarations [] = []
collect_all declarations (s ∷ sources) =
    collect true s (declarations s) ++ collect_all declarations sources

unfoldable pub with_override_note : Dict Text → InheritedRule → InheritedRule
unfolding sort_texts
with_override_note superseded rule =
    let replaced = map (λ e. e.0) (keep (λ e. e.1 == rule.origin_object_code) superseded) in
    if rule.inherited then rule else record rule { overridden_from = sort_texts replaced }

abbrev pub has_key : Text → Dict Text → Bool
has_key key d = elim (lookup key d) [ none ↦ false | some _ ↦ true ]

-- What is left of the collected rules once the superseded ones are dropped.
unfoldable pub effective : Dict Text → List InheritedRule → List InheritedRule
unfolding with_override_note
effective superseded collected =
    map (with_override_note superseded) (keep (λ r. not (has_key r.code superseded)) collected)

unfoldable pub shadow : Text → List Text → Dict Text → Dict Text
unfolding setdefault
shadow source [] d = d
shadow source (code ∷ codes) d = shadow source codes (setdefault code source d)

unfoldable pub shadow_all : (Text → List Text) → List Text → Dict Text → Dict Text
unfolding shadow
shadow_all codes [] d = d
shadow_all codes (s ∷ sources) d = shadow_all codes sources (shadow s (codes s) d)

unfoldable pub expand : Model → ℕ → Text → Expansion
unfolding supersede_all collect_all effective shadow_all
expand m ontology_id object_code =
    let ancestors = ancestors_of m.objects ontology_id object_code in
    let declarations = rule_declarations m.rules ontology_id in
    let superseded = supersede_all declarations (object_code ∷ ancestors) [] in
    let collected =
      collect false object_code (declarations object_code) ++ collect_all declarations ancestors in
    record {
      object_code = object_code;
      ancestors = ancestors;
      rules = effective superseded collected;
      attributes = shadow_all (attribute_codes m ontology_id) (object_code ∷ ancestors) [];
    }
