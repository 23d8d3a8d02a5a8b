-- ===== src/Permission/Allowed.antt =====
-- What has to hold before `check_permission` of backend/ontology_platform/workflow_permission.py
-- allows an operation.
use mathlib.Core.List.{Mem, mem-cons_self, mem-cons_of_mem}
use aletheia_onto.Base.{
  ℕ, ◌≡◌, ◌⊎◌, refl, ◌∙◌, subst, true, false, Option, none, some, List, [], ◌∷◌, arith, All, find,
  ◌==◌, ◌&&◌, Text, is_set, Bool-cases, Option-cases, inl, inr, ok,
}
use aletheia_onto.Workflow.{Sandbox, evaluate_guard}
use aletheia_onto.Workflow.Moves.{answer_passed}
use aletheia_onto.Permission.{
  Operation, PermissionRole, PermissionPolicy, Permissions, is_policy, policy_at, policy_for,
  grants, id_or_zero, filter_ontology, apply_policy, check_permission,
}

policy_at-Governs :
    (role_id : ℕ) (object_code : Text) (ontology_id : ℕ) (ps : List PermissionPolicy)
    (p : PermissionPolicy)
    → policy_at ps role_id object_code ontology_id ≡ some p
    → Mem p ps
      × (p.role_id ≡ role_id)
      × (p.object_code ≡ object_code)
      × (p.ontology_id ≡ ontology_id)
policy_at-Governs role_id object_code ontology_id [] p h = absurd (ground (arith, h))
policy_at-Governs role_id object_code ontology_id (q ∷ ps) p h =
    elim (Bool-cases (is_policy role_id object_code ontology_id q)) [
      | inl e ↦
          let found : some q ≡ some p = rw e at h in
          let same : q ≡ p = ground (arith, found) in
          subst
            (λ (x : PermissionPolicy).
              Mem x (q ∷ ps)
              × (x.role_id ≡ role_id)
              × (x.object_code ≡ object_code)
              × (x.ontology_id ≡ ontology_id))
            same (mem-cons_self, ground (arith, e), ground (arith, e), ground (arith, e))
      | inr e ↦
          let (there, role, object, ontology) =
            policy_at-Governs role_id object_code ontology_id ps p (rw e at h) in
          (mem-cons_of_mem q there, role, object, ontology)
    ]

policy_at-none :
    (role_id : ℕ) (object_code : Text) (ontology_id : ℕ) (ps : List PermissionPolicy)
    → policy_at ps role_id object_code ontology_id ≡ none
    → All (λ q. is_policy role_id object_code ontology_id q ≡ false) ps
policy_at-none role_id object_code ontology_id [] h = tt
policy_at-none role_id object_code ontology_id (q ∷ ps) h =
    elim (Bool-cases (is_policy role_id object_code ontology_id q)) [
      | inl e ↦ absurd (ground (arith, e, h))
      | inr e ↦ (e, policy_at-none role_id object_code ontology_id ps (rw e at h))
    ]

asked_for : (o : Option ℕ) → (o ≡ some (id_or_zero o)) ⊎ ((o ≡ none) × (id_or_zero o ≡ 0))
asked_for none = inr (refl, refl)
asked_for (some n) = inl refl

module _ (s : Permissions) where
  -- The stored policy of the role and the object for the ontology, or the one for any ontology where
  -- there is none.
  abbrev pub Governs : ℕ → Text → ℕ → PermissionPolicy → Type 0
  Governs role_id object_code asked p =
      Mem p s.policies
      × (p.role_id ≡ role_id)
      × (p.object_code ≡ object_code)
      × ((p.ontology_id ≡ asked)
          ⊎ ((p.ontology_id ≡ 0)
              × All
                  (λ q.
                    ((q.role_id == role_id)
                      && ((q.object_code == object_code) && (q.ontology_id == asked)))
                    ≡ false)
                  s.policies))

  policy_for-Governs :
      (role_id : ℕ) (object_code : Text) (asked : ℕ) (p : PermissionPolicy)
      → policy_for s.policies role_id object_code asked ≡ some p
      → Governs role_id object_code asked p
  unfolding policy_for
  policy_for-Governs role_id object_code asked p h =
      elim (Option-cases (policy_at s.policies role_id object_code asked)) [
        | inr (q, e) ↦
            let found : policy_at s.policies role_id object_code asked ≡ some p =
              e ∙ ground (arith, e, h) in
            let (there, role, object, ontology) =
              policy_at-Governs role_id object_code asked s.policies p found in
            (there, role, object, inl ontology)
        | inl e ↦
            let (there, role, object, ontology) =
              policy_at-Governs role_id object_code 0 s.policies p (rw e at h) in
            (
              there,
              role,
              object,
              inr (ontology, policy_at-none role_id object_code asked s.policies e),
            )
      ]

module _ (sandbox : Sandbox) (resolve : Text → Option ℕ) (s : Permissions) where
  applied :
      (policy : PermissionPolicy) (object_code : Text) (operation : Operation) (resolved : ℕ)
      (instance_id : Text)
      → (apply_policy sandbox policy object_code operation resolved instance_id).allowed ≡ true
      → (grants policy operation ≡ true)
        × ((is_set policy.filter_expression ≡ false)
            ⊎ ((is_set instance_id ≡ false)
                ⊎ (sandbox policy.filter_expression resolved object_code instance_id
                    ≡ ok (true, none))))
  unfolding apply_policy evaluate_guard
  applied policy object_code operation resolved instance_id h =
      elim (Bool-cases (grants policy operation)) [
        | inr e ↦ absurd (ground (arith, e, h))
        | inl e ↦ (
          e,
          elim (Bool-cases (is_set policy.filter_expression)) [
            | inr f ↦ inl f
            | inl f ↦ inr (elim (Bool-cases (is_set instance_id)) [
              | inr g ↦ inl g
              | inl g ↦ inr (elim (Bool-cases (is_set object_code)) [
                | inr o ↦ absurd (ground (arith, e, f, g, o, h))
                | inl o ↦
                    answer_passed
                      (sandbox policy.filter_expression resolved object_code instance_id)
                      (ground (arith, e, f, g, o, h))
              ])
            ])
          ],
        )
      ]

  resolved_in :
      (o : Option ℕ) (object_code : Text)
      → (o ≡ some (filter_ontology resolve object_code o))
        ⊎ ((o ≡ none)
            × ((resolve object_code ≡ some (filter_ontology resolve object_code o))
                ⊎ ((resolve object_code ≡ none) × (filter_ontology resolve object_code o ≡ 0))))
  resolved_in (some n) object_code = inl refl
  resolved_in none object_code = inr (refl, asked_for (resolve object_code))

  -- An operation is allowed only to a known role, by a stored policy of this role and object that
  -- grants the operation. The policy is that of the ontology that is asked for or, only where this
  -- has none, the one for any ontology, with the id 0; without an ontology it is the latter. If the
  -- policy has a row filter and an instance is named, then the filter was evaluated on that
  -- instance, in the ontology that is asked for or else in the newest one with the object, and
  -- passed.
  pub check_permission_allowed :
      (role_code object_code : Text) (operation : Operation) (ontology_id : Option ℕ)
      (instance_id : Text)
      → (check_permission sandbox resolve s role_code object_code operation ontology_id
          instance_id).allowed
        ≡ true
      → (role : PermissionRole) × (policy : PermissionPolicy) × (asked : ℕ) × (resolved : ℕ) × (find
            (λ r. r.code == role_code)
            s.roles
          ≡ some role)
        × ((ontology_id ≡ some asked) ⊎ ((ontology_id ≡ none) × (asked ≡ 0)))
        × ((ontology_id ≡ some resolved)
            ⊎ ((ontology_id ≡ none)
                × ((resolve object_code ≡ some resolved)
                    ⊎ ((resolve object_code ≡ none) × (resolved ≡ 0)))))
        × Governs s role.id object_code asked policy
        × (grants policy operation ≡ true)
        × ((is_set policy.filter_expression ≡ false)
            ⊎ ((is_set instance_id ≡ false)
                ⊎ (sandbox policy.filter_expression resolved object_code instance_id
                    ≡ ok (true, none))))
  unfolding check_permission
  check_permission_allowed role_code object_code operation ontology_id instance_id h =
      let resolved = filter_ontology resolve object_code ontology_id in
      elim (Option-cases (find (λ r. r.code == role_code) s.roles)) [
        | inl e ↦ absurd (ground (arith, e, h))
        | inr (role, e) ↦
            elim (Option-cases
              (policy_for s.policies role.id object_code (id_or_zero ontology_id))) [
                | inl f ↦ absurd (ground (arith, e, f, h))
                | inr (policy, f) ↦
                    let (granted, filtered) =
                      applied policy object_code operation resolved instance_id
                        (ground (arith, e, f, h)) in
                    (
                      role,
                      policy,
                      id_or_zero ontology_id,
                      resolved,
                      e,
                      asked_for ontology_id,
                      resolved_in ontology_id object_code,
                      policy_for-Governs s role.id object_code (id_or_zero ontology_id) policy f,
                      granted,
                      filtered,
                    )
              ]
      ]
