-- ===== src/Quota/Ceilings.antt =====
-- The guard of the quota against the two ceilings (internal/service/guard.go).
use buktio.Base.{
  ℕ, ◌+◌, ◌*◌, ◌<◌, ◌≡◌, ◌≢◌, ap, String, Bool, true, ◌&&◌, Option, none, some, [], arith, leb,
  str_eq, eq_iff, find, select, sum_of, if◌then◌else◌,
}
use buktio.Base.Int.{ℤ, pos, pos_part, negsuc, mul64, two_63, add64_pos}
use buktio.Runtime.Rows.{Db, Organization, UsageSnapshot}
use buktio.Runtime.World.{World, ok, err}
use buktio.Runtime.Errors.{actions}
use buktio.Runtime.Facade.{Services, Context, Limit, tenant}
use buktio.Tenants.Store.{live_org, latest_per_bucket, get_org_status, org_usage_totals}
use buktio.Quota.{license_bytes, quota_exceeded, tighter, org_storage_cap, quota_guard}

abbrev gib : ℕ
gib = 1073741824

times_1024 : (a : ℕ) → a * 1024 < two_63 → mul64 (pos a) (pos 1024) ≡ pos (a * 1024)
unfolding mul64
times_1024 a h = ground arith

license_bytes_pos : (a : ℕ) → a < 8589934592 → license_bytes (pos a) ≡ pos (a * gib)
license_bytes_pos a h =
    rw
      (
        times_1024 a (omega arith),
        times_1024 (a * 1024) (omega arith),
        times_1024 (a * 1024 * 1024) (omega arith),
      )
      (ap pos (omega arith))

-- Whether the usage is within a ceiling, where there is one.
abbrev within : ℕ → Option ℕ → Bool
within n none = true
within n (some cap) = leb n cap

-- The ceiling that the organisation's row holds.
abbrev column_of : Option ℤ → Option ℕ
column_of none = none
column_of (some (pos q)) = some q
column_of (some (negsuc q)) = none

-- The bytes that the license allows.
abbrev license_of : Limit → Option ℕ
license_of lim = if lim.unlimited then none else some (pos_part lim.max * gib)

-- The bytes in use.
abbrev used_by : String → Db → ℕ
used_by org db =
    sum_of (λ (u : UsageSnapshot). u.bytes_used)
      (latest_per_bucket [] (select (λ (u : UsageSnapshot). str_eq u.org_id org) db.usage))

-- Where no statement fails, the license's ceiling is below 2^33 GiB and the sum fits in an int64:
-- the guard admits an operation exactly where the bytes in use with those added are within the
-- ceiling of the organisation's row and within that of the license, and changes nothing.
pub quota_guard-ceilings :
    (s : Services) (ctx : Context) (o : Organization) (add max : ℕ) (w : World)
    → w.faults ≡ []
    → (tenant s ctx).org_id ≢ ""
    → find (live_org (tenant s ctx).org_id) w.db.organizations ≡ some o
    → (s.limit "storage_gb" (tenant s ctx).org_id).max ≡ pos max
    → max < 8589934592
    → used_by (tenant s ctx).org_id w.db + add < two_63
    → quota_guard s ctx (pos add) w ≡ (
      let n = used_by (tenant s ctx).org_id w.db + add in
          if within n (column_of o.quota_max_bytes)
            && within n (license_of (s.limit "storage_gb" (tenant s ctx).org_id))
          then ok tt
          else err quota_exceeded,
      w,
    )
unfolding quota_guard org_storage_cap tighter get_org_status org_usage_totals actions
quota_guard-ceilings s ctx o add max w f named live m small fits = ground (
  arith,
  license_bytes_pos max small,
  eq_iff (tenant s ctx).org_id "",
  add64_pos (used_by (tenant s ctx).org_id w.db) add fits,
)

-- The ceiling of the license wraps around: where no statement fails and the row holds no ceiling, a
-- license of 2^33 GiB, which is limited, admits every operation.
pub quota_guard_wraps :
    (s : Services) (ctx : Context) (o : Organization) (add : ℤ) (w : World)
    → w.faults ≡ []
    → find (live_org (tenant s ctx).org_id) w.db.organizations ≡ some o
    → o.quota_max_bytes ≡ none
    → (s.limit "storage_gb" (tenant s ctx).org_id).max ≡ pos 8589934592
    → quota_guard s ctx add w ≡ (ok tt, w)
unfolding quota_guard org_storage_cap tighter get_org_status org_usage_totals mul64 actions
quota_guard_wraps s ctx o add w f live c m = ground arith
