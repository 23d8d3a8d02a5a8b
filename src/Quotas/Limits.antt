-- ===== src/Quotas/Limits.antt =====
-- The limits that backend/ontology_platform/quotas.py reads after one is set, and what its report
-- and its check say of them.
use aletheia_onto.Base.{
  ℕ, ◌+◌, ◌-◌, ◌≤◌, ◌≡◌, ◌↔◌, ◌⊎◌, inl, inr, refl, sym, ◌∙◌, ap, subst, pos, Bool, true, false, not,
  Option, none, some, List, [], ◌∷◌, ◌++◌, arith, keep, ltb, ◌==◌, ==→eq, ◌&&◌, if◌then◌else◌,
  Bool-cases, Text, Dict, lookup, insert, lookup-insert, ok, or_raise_returned,
}
use aletheia_onto.Quotas.{
  quota_resources, QuotaRow, Stores, quota_rows, is_quota, set_tenant_quota, limits_of, tenant_rows,
  Usage, remaining_of, exceeded_of, usage_of, within, tenant_quotas, quota_usage, check_quota,
}

-- The limit of the last row for the tenant and the resource.
abbrev last_limit : Text → Text → Option ℕ → List QuotaRow → Option ℕ
last_limit tenant resource found [] = found
last_limit tenant resource found (q ∷ rows) =
    last_limit tenant resource (if is_quota tenant resource q then some q.limit_value else found)
      rows

lookup-limits_of :
    (tenant resource : Text) (rows : List QuotaRow) (limits : Dict ℕ)
    → lookup resource (limits_of tenant rows limits)
      ≡ last_limit tenant resource (lookup resource limits) rows
unfolding limits_of
lookup-limits_of tenant resource [] limits = refl
lookup-limits_of tenant resource (q ∷ rows) limits =
    lookup-limits_of tenant resource rows _
    ∙ ap (λ o. last_limit tenant resource o rows) (next (q.tenant == tenant) refl)
  where
    next :
        (b : Bool)
        → (q.tenant == tenant) ≡ b
        → lookup resource
            (if q.tenant == tenant then insert q.resource q.limit_value limits else limits)
          ≡ (if is_quota tenant resource q then some q.limit_value else lookup resource limits)
    next b e = ground (arith, lookup-insert resource q.resource q.limit_value limits)

-- The rows for another tenant or resource count, the removed ones do not.
last_limit-keep :
    (t r tenant resource : Text) (found : Option ℕ) (rows : List QuotaRow)
    → last_limit t r found (keep (λ q. not (is_quota tenant resource q)) rows)
      ≡ (if (tenant == t) && (resource == r) then found else last_limit t r found rows)
last_limit-keep t r tenant resource found [] = ground arith
last_limit-keep t r tenant resource found (q ∷ rows) =
    elim (Bool-cases (is_quota tenant resource q)) [
      | inl e ↦ rw e (last_limit-keep t r tenant resource found rows ∙ ground (arith, e))
      | inr e ↦ rw e (
          last_limit-keep t r tenant resource (if is_quota t r q then some q.limit_value else found)
            rows
          ∙ ground (arith, e))
    ]

last_limit-append :
    (t r : Text) (found : Option ℕ) (xs ys : List QuotaRow)
    → last_limit t r found (xs ++ ys) ≡ last_limit t r (last_limit t r found xs) ys
last_limit-append t r found [] ys = refl
last_limit-append t r found (q ∷ xs) ys =
    last_limit-append t r (if is_quota t r q then some q.limit_value else found) xs ys

set_last :
    (b : Bool) (limit : ℕ) (kept old : Option ℕ)
    → kept ≡ (if b then none else old)
    → (if b then some limit else kept) ≡ (if b then some limit else old)
set_last true limit kept old e = refl
set_last false limit kept old e = e

module _ (validate_tenant : Text → Option Text) where
  -- After a limit is set for a valid tenant, the limits that are read for any valid tenant are the
  -- ones that were read before, but for the one resource of the one tenant, which has the limit
  -- that was set.
  pub tenant_quotas-set_tenant_quota :
      (s after : Stores) (name tenant other t resource r : Text) (limit : ℕ) (note : Text)
      (before now : Dict ℕ)
      → validate_tenant name ≡ some tenant
      → validate_tenant other ≡ some t
      → set_tenant_quota validate_tenant s name resource (pos limit) note ≡ ok after
      → tenant_quotas validate_tenant s other ≡ ok before
      → tenant_quotas validate_tenant after other ≡ ok now
      → lookup r now ≡ (if (tenant == t) && (resource == r) then some limit else lookup r before)
  unfolding set_tenant_quota tenant_quotas
  tenant_quotas-set_tenant_quota s after name tenant other t resource r limit note before now valid
        valid_other done read_before read_now =
      let (tenant', named, h₁) = or_raise_returned (validate_tenant name) _ _ after done in
      let (table, known, h₂) = or_raise_returned (lookup resource quota_resources) _ _ after h₁ in
      let (t', named', b₁) = or_raise_returned (validate_tenant other) _ _ before read_before in
      let (t'', named'', n₁) = or_raise_returned (validate_tenant other) _ _ now read_now in
      let same : tenant' ≡ tenant = ground (arith, named, valid) in
      let same' : t' ≡ t = ground (arith, named', valid_other) in
      let same'' : t'' ≡ t = ground (arith, named'', valid_other) in
      let row : QuotaRow = record {
        tenant = tenant;
        resource = resource;
        limit_value = limit;
        note = note;
      } in
      let rows = quota_rows s.quotas in
      let kept = keep (λ q. not (is_quota tenant resource q)) rows in
      let rows' : quota_rows after.quotas ≡ kept ++ row ∷ [] =
        subst
          (λ x.
            quota_rows after.quotas
            ≡ keep (λ q. not (is_quota x resource q)) rows ++ record row { tenant = x } ∷ [])
          same (ground (arith, h₂)) in
      let old : limits_of t rows [] ≡ before =
        subst (λ x. limits_of x rows [] ≡ before) same' (ground (arith, b₁)) in
      let new : limits_of t (kept ++ row ∷ []) [] ≡ now =
        subst (λ rs. limits_of t rs [] ≡ now) rows'
          (subst (λ x. limits_of x (quota_rows after.quotas) [] ≡ now) same''
            (ground (arith, n₁))) in
      ap (lookup r) (sym new)
      ∙ (lookup-limits_of t r (kept ++ row ∷ []) []
          ∙ (last_limit-append t r none kept (row ∷ [])
              ∙ (set_last ((tenant == t) && (resource == r)) limit (last_limit t r none kept)
                    (last_limit t r none rows) (last_limit-keep t r tenant resource none rows)
                  ∙ ap (λ o. if (tenant == t) && (resource == r) then some limit else o)
                      (sym (lookup-limits_of t r rows []) ∙ ap (lookup r) old))))

  -- What a report admits: any write to a resource without a limit, and to one with a limit that is
  -- not exceeded as many rows as remain.
  abbrev pub Admits : Usage → ℕ → Type 0
  Admits u requested =
      (u.remaining ≡ none)
      ⊎ ((left : ℕ) × (u.remaining ≡ some left) × (u.is_exceeded ≡ false) × (requested ≤ left))

  abbrev usage_with : Dict ℕ → Stores → Text → Text → Text → Usage
  usage_with limits s tenant resource table = record {
    current = tenant_rows s tenant table;
    limit = lookup resource limits;
    remaining = remaining_of (lookup resource limits) (tenant_rows s tenant table);
    is_exceeded = exceeded_of (lookup resource limits) (tenant_rows s tenant table);
  }

  lookup-usage_of :
      (limits : Dict ℕ) (s : Stores) (tenant resource table : Text) (resources : Dict Text)
      → lookup resource resources ≡ some table
      → lookup resource (usage_of limits s tenant resources)
        ≡ some (usage_with limits s tenant resource table)
  unfolding usage_of
  lookup-usage_of limits s tenant resource table [] h = absurd (ground (arith, h))
  lookup-usage_of limits s tenant resource table ((r, t) ∷ resources) h =
      elim (Bool-cases (resource == r)) [
        | inr e ↦ rw e (lookup-usage_of limits s tenant resource table resources (rw e at h))
        | inl e ↦
            let one : some t ≡ some table = rw e at h in
            let same : t ≡ table = ground (arith, one) in
            rw e (
              ap some (
                ap (λ x. usage_with limits s tenant x t) (sym (==→eq resource r e))
                ∙ ap (usage_with limits s tenant resource) same))
      ]

  within-Admits :
      (limit : Option ℕ) (current requested : ℕ) (u : Usage)
      → u.remaining ≡ remaining_of limit current
      → u.is_exceeded ≡ exceeded_of limit current
      → (within limit current requested ≡ ok tt) ↔ Admits u requested
  within-Admits none current requested u r x = ((λ h. inl r), (λ h. refl))
  within-Admits (some limit) current requested u r x = (
    (λ h. elim (Bool-cases (ltb limit (current + requested))) [
      | inl over ↦ absurd (ground (arith, over, h))
      | inr fits ↦ inr (limit - current, r, x ∙ ground (arith, fits), ground (arith, fits))
    ]),
    (λ a. elim a [
      | inl none_left ↦ absurd (ground (arith, none_left, r))
      | inr (left, there, fine, le) ↦
          let eq : some left ≡ some (limit - current) = sym there ∙ r in
          let below : ltb limit current ≡ false = sym x ∙ fine in ground (arith, eq, below, le)
    ]),
  )

  -- The report and the check agree: for a tenant's name in its normal form, a write of so many
  -- rows passes the check exactly if the report admits it, that is if the resource has no limit or
  -- its limit is not exceeded and as many rows remain.
  pub check_quota-quota_usage :
      (s : Stores) (name resource : Text) (requested : ℕ) (report : Dict Usage) (u : Usage)
      (table : Text)
      → validate_tenant name ≡ some name
      → lookup resource quota_resources ≡ some table
      → quota_usage validate_tenant s name ≡ ok report
      → lookup resource report ≡ some u
      → (check_quota validate_tenant s name resource requested ≡ ok tt) ↔ Admits u requested
  unfolding quota_usage check_quota tenant_quotas
  check_quota-quota_usage s name resource requested report u table normal known reported there =
      let limits = limits_of name (quota_rows s.quotas) [] in
      let shown : usage_of limits s name quota_resources ≡ report =
        ground (arith, rw (normal, normal) at reported) in
      let expected = usage_with limits s name resource table in
      let equal : some expected ≡ some u =
        sym (lookup-usage_of limits s name resource table quota_resources known)
        ∙ (ap (lookup resource) shown ∙ there) in
      let same : expected ≡ u = ground (arith, equal) in
      rw (known, normal)
        (within-Admits (lookup resource limits) (tenant_rows s name table) requested u
          (ap (λ (x : Usage). x.remaining) (sym same))
          (ap (λ (x : Usage). x.is_exceeded) (sym same)))
