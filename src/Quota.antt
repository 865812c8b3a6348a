-- ===== src/Quota.antt =====
-- The storage ceiling of an organisation (quotaGuard and orgStorageCap of
-- internal/service/guard.go).
pub mod Ceilings
use buktio.Base.{
  ℕ, ◌*◌, String, Bool, true, false, not, ◌&&◌, ◌||◌, Option, none, some, str_eq, if◌then◌else◌,
}
use buktio.Base.Int.{ℤ, pos, negsuc, ltb_ℤ, add64, mul64}
use buktio.Runtime.World.{World, Exec, ◌>>=◌, pure, raise, attempt, or_zero}
use buktio.Runtime.Errors.{Error}
use buktio.Runtime.Facade.{Services, Context, tenant}
use buktio.Tenants.Store.{OrgStatus, get_org_status, org_usage_totals}

-- -1 stands for no ceiling.
abbrev pub unlimited : ℤ
unlimited = negsuc 0

-- The ceiling of the organisation's row; without a row, or where it cannot be read, there is none.
abbrev pub column_cap : Option OrgStatus → ℤ
column_cap none = unlimited
column_cap (some st) = elim st.quota_max_bytes [ none ↦ unlimited | some q ↦ q ]

-- The ceiling of the license: `lim.Max * 1024 * 1024 * 1024`, in int64.
abbrev pub license_bytes : ℤ → ℤ
license_bytes max = mul64 (mul64 (mul64 max (pos 1024)) (pos 1024)) (pos 1024)

abbrev pub quota_exceeded : Error
quota_exceeded = record {
  code = "quota_exceeded";
  message = "organization storage quota exceeded";
  http = 402;
}

-- The tighter of the two.
unfoldable pub tighter : ℤ → Bool → ℤ → ℤ
tighter column no_license max =
    let licensed = license_bytes max in
    if no_license
    then column
    else if ltb_ℤ column (pos 0) || ltb_ℤ licensed column
    then licensed
    else column

module _ (s : Services) where
  unfoldable pub org_storage_cap : {E : Type 0} → String → Exec E ℤ
  unfolding tighter
  org_storage_cap org = do
    st ← attempt (get_org_status org)
    let lim = s.limit "storage_gb" org
    pure (tighter (column_cap st) lim.unlimited lim.max)

  unfoldable pub quota_guard : Context → ℤ → Exec Error (Unit {0})
  quota_guard ctx add =
      let org = (tenant s ctx).org_id in
      if str_eq org "" then pure tt else do
        cap ← org_storage_cap org
        if ltb_ℤ cap (pos 0) then pure tt else do
          used ← or_zero (0, 0) (org_usage_totals org)
          if ltb_ℤ cap (add64 (pos used.0) add) then raise quota_exceeded else pure tt
