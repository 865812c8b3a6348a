-- ===== src/Tenants/Store.antt =====
-- The statements on organisations and their usage (internal/repository/orgs.go, billing.go).
use buktio.Base.{
  ℕ, String, Bool, not, ◌&&◌, Option, none, some, List, [], ◌∷◌, leb, str_eq, select, find, any,
  sum_of, update_where, if◌then◌else◌,
}
use buktio.Base.Int.{ℤ}
use buktio.Runtime.Rows.{Organization, Bucket, UsageSnapshot, TrafficSnapshot}
use buktio.Runtime.World.{
  RepoErr, not_found, Exec, ◌>>=◌, pure, raise, gets, statement, wrapped, or_zero, put_db,
}
use buktio.Guard.{row_or_not_found}

-- repository.OrgStatus
pub record OrgStatus : Type 0 where
  pub status : String
  pub suspended_at : Option ℕ
  pub suspend_reason : String
  pub quota_max_bytes : Option ℤ

-- `WHERE id=$1::uuid AND deleted_at IS NULL`
abbrev pub live_org : String → Organization → Bool
live_org id o = str_eq o.id id && not o.deleted

unfoldable pub get_org_status : String → Exec RepoErr OrgStatus
get_org_status org = wrapped "repository: get org status: " (
    statement (λ w.
      (do
        o ← row_or_not_found (find (live_org org) w.db.organizations)
        pure (record {
          status = o.status;
          suspended_at = o.suspended_at;
          suspend_reason = o.suspend_reason;
          quota_max_bytes = o.quota_max_bytes;
        }))
        w))

-- An UPDATE of the live organisation; no such row is an error.
abbrev pub update_org :
    String → String → (ℕ → Organization → Organization) → Exec RepoErr (Unit {0})
update_org prefix org f = wrapped prefix (
    statement (λ w.
      (if any (live_org org) w.db.organizations
          then put_db (record w.db {
            organizations = update_where (live_org org) (f w.now) w.db.organizations;
          })
          else raise not_found)
        w))

abbrev pub suspended_row : String → ℕ → Organization → Organization
suspended_row reason now o = record o {
  status = "suspended";
  suspended_at = some now;
  suspend_reason = reason;
}

abbrev pub resumed_row : ℕ → Organization → Organization
resumed_row now o = record o { status = "active"; suspended_at = none; suspend_reason = "" }

-- Store.SuspendOrg
unfoldable pub suspend_row : String → String → Exec RepoErr (Unit {0})
suspend_row org reason = update_org "repository: suspend org: " org (suspended_row reason)

-- Store.ResumeOrg
unfoldable pub resume_row : String → Exec RepoErr (Unit {0})
resume_row org = update_org "repository: resume org: " org resumed_row

-- Store.SetOrgQuota
unfoldable pub set_quota_row : String → Option ℤ → Exec RepoErr (Unit {0})
set_quota_row org max =
    update_org "repository: set org quota: " org (λ now o. record o { quota_max_bytes = max })

abbrev ids : List Organization → List String
ids [] = []
ids (o ∷ os) = o.id ∷ ids os

unfoldable pub list_org_ids : Exec RepoErr (List String)
list_org_ids =
    wrapped "repository: list org ids: " (
      statement (gets (λ w. ids (select (λ (o : Organization). not o.deleted) w.db.organizations))))

unfoldable pub set_org_status : String → String → Exec RepoErr (Unit {0})
set_org_status org status =
    update_org "repository: set org status: " org (λ now o. record o { status = status })

unfoldable pub list_org_ids_by_status : String → Exec RepoErr (List String)
list_org_ids_by_status status = wrapped "repository: list orgs by status: " (
    statement (
      gets (λ w. ids (
        select (λ (o : Organization). str_eq o.status status && not o.deleted)
          w.db.organizations))))

-- The latest snapshot of each bucket: of rows that stand newest first, the first of each bucket.
abbrev pub latest_per_bucket : List String → List UsageSnapshot → List UsageSnapshot
latest_per_bucket seen [] = []
latest_per_bucket seen (u ∷ us) =
    let with_it = latest_per_bucket (u.bucket_id ∷ seen) us in
    if any (str_eq u.bucket_id) seen then latest_per_bucket seen us else u ∷ with_it

-- A query that fails counts as no usage.
unfoldable pub org_usage_totals : String → Exec RepoErr (ℕ × ℕ)
org_usage_totals org =
    or_zero (0, 0)
      (statement (
        gets (λ w.
          let rows =
            latest_per_bucket [] (select (λ (u : UsageSnapshot). str_eq u.org_id org) w.db.usage) in
          (
            sum_of (λ (u : UsageSnapshot). u.bytes_used) rows,
            sum_of (λ (u : UsageSnapshot). u.object_count) rows,
          ))))

-- `JOIN buckets b ON b.garage_global_alias = t.bucket AND b.deleted_at IS NULL`: a snapshot counts
-- once for each live bucket of the organisation with its alias.
abbrev joined_traffic : String → (TrafficSnapshot → ℕ) → List Bucket → TrafficSnapshot → ℕ
joined_traffic org f bs t =
    sum_of (λ _. f t)
      (select
        (λ (b : Bucket).
          str_eq b.garage_global_alias t.bucket && not b.deleted && str_eq b.org_id org)
        bs)

unfoldable pub traffic_by_org : String → ℕ → Exec RepoErr (ℕ × ℕ)
traffic_by_org org since = wrapped "repository: traffic by org: " (
    statement (
      gets (λ w.
        let rows = select (λ (t : TrafficSnapshot). leb since t.captured_at) w.db.traffic in
        (
          sum_of (joined_traffic org (λ t. t.bytes_out) w.db.buckets) rows,
          sum_of (joined_traffic org (λ t. t.requests) w.db.buckets) rows,
        ))))
