-- ===== src/Quotas/Ceiling.antt =====
-- What the check of backend/ontology_platform/quotas.py keeps, if every write passes it first.
use aletheia_onto.Base.{
  ℕ, zero, suc, ◌≤◌, ◌≡◌, false, Option, some, List, ◌∷◌, Text, Dict, lookup, ok,
}
use aletheia_onto.Quotas.{quota_resources, Stores, tenant_rows, tenant_quotas, check_quota}

-- So many more rows of a table. No statement of the application sets `tenant_id`, whose default is
-- the empty text.
unfoldable pub add_rows : ℕ → Text → List (Text × Text) → List (Text × Text)
add_rows zero table rows = rows
add_rows (suc n) table rows = (table, 0) ∷ add_rows n table rows

-- A write of the application into the shared store.
abbrev pub written : Stores → Text → ℕ → Stores
written s table n = record s { shared = add_rows n table s.shared }

module _ (validate_tenant : Text → Option Text) (name : Text) where
  -- No table of the shared store has a tenant's column, as in every deployment that has provisioned
  -- no tenants, and there are no more rows than a declared limit of the tenant allows.
  abbrev pub IsWithin : Stores → Type 0
  IsWithin s =
      ((table : Text) → s.has_tenant_column table ≡ false)
      × ((resource table : Text) (limits : Dict ℕ) (limit : ℕ)
          → lookup resource quota_resources ≡ some table
          → tenant_quotas validate_tenant s name ≡ ok limits
          → lookup resource limits ≡ some limit
          → tenant_rows s name table ≤ limit)

  -- One write of rows of a resource, right after the check for the tenant let it pass.
  pub data GuardedWrite : Stores → Stores → Type 0 where
    guarded :
        {s : Stores} (resource table : Text) (requested : ℕ)
        → lookup resource quota_resources ≡ some table
        → check_quota validate_tenant s name resource requested ≡ ok tt
        → GuardedWrite s (written s table requested)

  pub data GuardedWrites : Stores → Stores → Type 0 where
    done : {s : Stores} → GuardedWrites s s
    next : {s t u : Stores} → GuardedWrite s t → GuardedWrites t u → GuardedWrites s u
