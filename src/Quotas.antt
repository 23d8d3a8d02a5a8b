-- ===== src/Quotas.antt =====
-- Quotas of tenants: backend/ontology_platform/quotas.py. A tenant's name is a numbered text whose
-- check and normalization, `validate_tenant`, is a parameter.
pub mod Limits
pub mod Ceiling
use aletheia_onto.Base.{
  ℕ, suc, ◌+◌, ◌-◌, ℤ, pos, negsuc, Bool, true, false, not, Option, none, some, List, [], ◌∷◌, ◌++◌,
  keep, ltb, ◌==◌, ◌&&◌, ◌||◌, if◌then◌else◌, Text, contains, Dict, lookup, insert, Result, ok, err,
  ◌>>=◌, ◌>>◌, raise_if, or_raise,
}

-- `QUOTA_RESOURCES`: the seven resources with the tables that they count, both numbered
-- in the order of their names.
abbrev pub quota_resources : Dict Text
quota_resources = (1, 1) ∷ (2, 2) ∷ (3, 3) ∷ (4, 4) ∷ (5, 5) ∷ (6, 6) ∷ (7, 7) ∷ []

-- A row of `tenant_quota`.
pub record QuotaRow : Type 0 where
  pub tenant : Text
  pub resource : Text
  pub limit_value : ℕ
  pub note : Text

-- The platform's store and the tenants' own ones. A row is known by its table, in the shared store
-- also by its `tenant_id`. `quotas` is none before the table is created, and `own` is none of a
-- tenant whose store is the shared one or is not there.
pub record Stores : Type 0 where
  pub quotas : Option (List QuotaRow)
  pub shared : List (Text × Text)
  pub has_tenant_column : Text → Bool
  pub own : Text → Option (List Text)

pub data QuotaError : Type 0 where
  invalid_tenant unknown_resource negative_limit : QuotaError
  exceeded : ℕ → ℕ → ℕ → QuotaError

-- `limit < 0`
abbrev pub natural : ℤ → Option ℕ
natural (pos n) = some n
natural (negsuc n) = none

abbrev pub quota_rows : Option (List QuotaRow) → List QuotaRow
quota_rows none = []
quota_rows (some rows) = rows

abbrev pub is_quota : Text → Text → QuotaRow → Bool
is_quota tenant resource q = (q.tenant == tenant) && (q.resource == resource)

module _ (validate_tenant : Text → Option Text) where
  unfoldable pub set_tenant_quota : Stores → Text → Text → ℤ → Text → Result QuotaError Stores
  set_tenant_quota s name resource limit note = do
    tenant ← or_raise (validate_tenant name) invalid_tenant
    table ← or_raise (lookup resource quota_resources) unknown_resource
    limit_value ← or_raise (natural limit) negative_limit
    ok (record s {
      quotas = some (
          keep (λ q. not (is_quota tenant resource q)) (quota_rows s.quotas)
          ++ record { tenant = tenant; resource = resource; limit_value = limit_value; note = note }
            ∷ []);
    })

-- The dict that is made of the selected rows in turn.
unfoldable pub limits_of : Text → List QuotaRow → Dict ℕ → Dict ℕ
limits_of tenant [] limits = limits
limits_of tenant (q ∷ quotas) limits =
    limits_of tenant quotas
      (if q.tenant == tenant then insert q.resource q.limit_value limits else limits)

-- `_count` in the shared store: `select count(*) ... where tenant_id = ?`, if there is the column.
unfoldable pub count_shared : Stores → Text → Text → List (Text × Text) → ℕ
count_shared s tenant table [] = 0
count_shared s tenant table ((t, stamp) ∷ rows) =
    let rest = count_shared s tenant table rows in
    if (t == table) && (not (s.has_tenant_column table) || (stamp == tenant))
    then suc rest
    else rest

-- `_count` in the tenant's own store.
unfoldable pub count_own : Text → List Text → ℕ
count_own table [] = 0
count_own table (t ∷ rows) =
    let rest = count_own table rows in if t == table then suc rest else rest

unfoldable pub tenant_rows : Stores → Text → Text → ℕ
unfolding count_shared count_own
tenant_rows s tenant table =
    count_shared s tenant table s.shared
    + elim (s.own tenant) [ none ↦ 0 | some rows ↦ count_own table rows ]

-- What the report says of a resource; of one without a limit nothing remains to be said.
pub record Usage : Type 0 where
  pub current : ℕ
  pub limit : Option ℕ
  pub remaining : Option ℕ
  pub is_exceeded : Bool

-- `max(0, limit - current)` and `current > limit`
abbrev pub remaining_of : Option ℕ → ℕ → Option ℕ
remaining_of none current = none
remaining_of (some limit) current = some (limit - current)

abbrev pub exceeded_of : Option ℕ → ℕ → Bool
exceeded_of none current = false
exceeded_of (some limit) current = ltb limit current

unfoldable pub usage_of : Dict ℕ → Stores → Text → Dict Text → Dict Usage
unfolding tenant_rows
usage_of limits s tenant [] = []
usage_of limits s tenant ((resource, table) ∷ resources) =
    let current = tenant_rows s tenant table in
    let limit = lookup resource limits in
    (
      resource,
      record {
        current = current;
        limit = limit;
        remaining = remaining_of limit current;
        is_exceeded = exceeded_of limit current;
      },
    )
    ∷ usage_of limits s tenant resources

-- `if current + requested > limit: raise`
abbrev pub within : Option ℕ → ℕ → ℕ → Result QuotaError (Unit {0})
within none current requested = ok tt
within (some limit) current requested =
    raise_if (ltb limit (current + requested)) (exceeded limit current requested)

module _ (validate_tenant : Text → Option Text) where
  unfoldable pub tenant_quotas : Stores → Text → Result QuotaError (Dict ℕ)
  unfolding limits_of
  tenant_quotas s name = do
    tenant ← or_raise (validate_tenant name) invalid_tenant
    ok (limits_of tenant (quota_rows s.quotas) [])

  unfoldable pub quota_usage : Stores → Text → Result QuotaError (Dict Usage)
  unfolding tenant_quotas usage_of
  quota_usage s name = do
    tenant ← or_raise (validate_tenant name) invalid_tenant
    limits ← tenant_quotas s tenant
    ok (usage_of limits s tenant quota_resources)

  -- The rows are counted for the name as it was given.
  unfoldable pub check_quota : Stores → Text → Text → ℕ → Result QuotaError (Unit {0})
  unfolding tenant_quotas tenant_rows
  check_quota s name resource requested = do
    table ← or_raise (lookup resource quota_resources) unknown_resource
    limits ← tenant_quotas s name
    within (lookup resource limits) (tenant_rows s name table) requested
