-- ===== src/Tests/Quota.antt =====
-- Examples for backend/ontology_platform/quotas.py.
use aletheia_onto.Base.{
  ◌≡◌, ◌↔◌, refl, true, false, Option, none, some, [], ◌∷◌, ◌==◌, if◌then◌else◌, Text, Dict, ok,
  err,
}
use aletheia_onto.Quotas.{
  QuotaRow, Stores, Usage, exceeded, limits_of, count_shared, tenant_rows, usage_of, tenant_quotas,
  quota_usage, check_quota,
}
use aletheia_onto.Quotas.Limits.{Admits, check_quota-quota_usage}
use aletheia_onto.Quotas.Ceiling.{add_rows, written}

-- The tenant 8 is the tenant 7 in capital letters.
abbrev normal_form : Text → Option Text
normal_form name = if name == 0 then none else if name == 8 then some 7 else some name

-- The tenant 7 may have two rows of the resource 3 and has one.
abbrev quota_row : QuotaRow
quota_row = record { tenant = 7; resource = 3; limit_value = 2; note = 0 }

abbrev stores : Stores
stores = record {
  quotas = some (quota_row ∷ []);
  shared = (3, 7) ∷ (3, 9) ∷ [];
  has_tenant_column = λ table. true;
  own = λ tenant. none;
}

abbrev usage : Usage
usage = record { current = 1; limit = some 2; remaining = some 1; is_exceeded = false }

abbrev nothing : Usage
nothing = record { current = 0; limit = none; remaining = none; is_exceeded = false }

abbrev report : Dict Usage
report =
    (1, nothing)
    ∷ (2, nothing)
    ∷ (3, usage)
    ∷ (4, nothing)
    ∷ (5, nothing)
    ∷ (6, nothing)
    ∷ (7, nothing)
    ∷ []

check_quota-quota_usage_example :
    (check_quota normal_form stores 7 3 1 ≡ ok tt) ↔ Admits normal_form usage 1
unfolding quota_usage tenant_quotas usage_of limits_of tenant_rows count_shared
check_quota-quota_usage_example =
    check_quota-quota_usage normal_form stores 7 3 1 report usage 3 refl refl refl refl

-- A deployment without tenants' columns, with one row of two.
abbrev single : Stores
single = record stores { shared = (3, 0) ∷ []; has_tenant_column = λ table. false }

-- Two requests are checked before either writes: both pass, and the limit of two is exceeded.
both_pass :
    (check_quota normal_form single 7 3 1 ≡ ok tt)
    × (tenant_rows (written (written single 3 1) 3 1) 7 3 ≡ 3)
unfolding check_quota tenant_quotas limits_of tenant_rows count_shared add_rows
both_pass = (refl, refl)

-- Where the table has the column, what the application writes is counted for no tenant.
unstamped_pass :
    (tenant_rows (written stores 3 5) 7 3 ≡ 1)
    × (check_quota normal_form (written stores 3 5) 7 3 1 ≡ ok tt)
unfolding check_quota tenant_quotas limits_of tenant_rows count_shared add_rows
unstamped_pass = (refl, refl)

-- Under the name in capital letters the limit is read and the rows are not counted.
capitals_pass : check_quota normal_form stores 8 3 2 ≡ ok tt
unfolding check_quota tenant_quotas limits_of tenant_rows count_shared
capitals_pass = refl

lower_case_refused : check_quota normal_form stores 7 3 2 ≡ err (exceeded 2 1 2)
unfolding check_quota tenant_quotas limits_of tenant_rows count_shared
lower_case_refused = refl
