-- ===== src/Governance/Derive/Columns.antt =====
-- What the copies of backend/ontology_platform/governance.py have to hold, column by column.
use aletheia_onto.Base.{◌≡◌, refl, false, List, [], ◌∷◌, map, Text}
use aletheia_onto.Model.{BusinessObject, BusinessRule, SemanticMapping, MappingStatus}
use aletheia_onto.Governance.{append_review_note}
use aletheia_onto.Governance.Derive.{Derivation, copied_object, copied_rule, copied_mapping}

-- The rows of the second list belong to those of the first, in their order.
pub data Corresponds {A : Type 0} {B : Type 0} (R : A → B → Type 0) : List A → List B → Type 0 where
  none_left : Corresponds R [] []
  pair :
      {a : A} {b : B} {l : List A} {m : List B}
      → R a b
      → Corresponds R l m
      → Corresponds R (a ∷ l) (b ∷ m)

pub Corresponds-map :
    {A : Type 0} {B : Type 0} (R : A → B → Type 0) (f : A → B) (xs : List A)
    → ((x : A) → R x (f x))
    → Corresponds R xs (map f xs)
Corresponds-map R f [] h = none_left
Corresponds-map R f (x ∷ xs) h = pair (h x) (Corresponds-map R f xs h)

module _ (d : Derivation) where
  -- The same object in the new ontology, a draft without a parent.
  abbrev pub IsObjectCopy : BusinessObject → BusinessObject → Type 0
  IsObjectCopy o c =
      (c.id ≡ d.object_id_map o.id)
      × (c.ontology_id ≡ d.new_ontology_id)
      × (c.code ≡ o.code)
      × (c.name ≡ o.name)
      × (c.parent_object_code ≡ 0)
      × (c.is_confirmed ≡ false)

  -- The same rule in the new ontology, which overrides nothing.
  abbrev pub IsRuleCopy : BusinessRule → BusinessRule → Type 0
  IsRuleCopy r c =
      (c.id ≡ d.new_rule_id r.id)
      × (c.ontology_id ≡ d.new_ontology_id)
      × (c.code ≡ r.code)
      × (c.name ≡ r.name)
      × (c.rule_type ≡ r.rule_type)
      × (c.scope_object_code ≡ r.scope_object_code)
      × (c.expression ≡ r.expression)
      × (c.severity ≡ r.severity)
      × (c.status ≡ r.status)
      × (c.priority ≡ r.priority)
      × (c.effective_start ≡ r.effective_start)
      × (c.effective_end ≡ r.effective_end)
      × (c.depends_on ≡ r.depends_on)
      × (c.overrides ≡ 0)

  -- The mapping of the moved target in the new ontology, which nobody has reviewed, with the note
  -- on the version that it comes from.
  abbrev pub IsMappingCopy : Text → SemanticMapping → SemanticMapping → Type 0
  IsMappingCopy version x c =
      (c.id ≡ d.new_mapping_id x.id)
      × (c.ontology_id ≡ d.new_ontology_id)
      × (c.target_ref ≡ d.remap_target x.target_ref)
      × (c.status ≡ MappingStatus.pending)
      × (c.evidence ≡ append_review_note d.join x.evidence (d.derived_from version))
      × (c.reviewer ≡ 0)

  pub copied_object_columns : (o : BusinessObject) → IsObjectCopy o (copied_object d o)
  copied_object_columns o = (refl, refl, refl, refl, refl, refl)

  pub copied_rule_columns : (r : BusinessRule) → IsRuleCopy r (copied_rule d r)
  copied_rule_columns r =
      (refl, refl, refl, refl, refl, refl, refl, refl, refl, refl, refl, refl, refl, refl)

  pub copied_mapping_columns :
      (version : Text) (x : SemanticMapping) → IsMappingCopy version x (copied_mapping d version x)
  copied_mapping_columns version x = (refl, refl, refl, refl, refl, refl)
