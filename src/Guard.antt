-- ===== src/Guard.antt =====
-- The checks in front of the operations (internal/service/guard.go, policies.go, tenants.go).
pub mod Lookups
use buktio.Base.{
  String, ◌<>◌, Bool, not, ◌||◌, Option, none, some, List, ◌∷◌, find, str_eq, ◌&&◌, if◌then◌else◌,
}
use buktio.Runtime.Rows.{Bucket}
use buktio.Runtime.World.{
  RepoErr, not_found, Exec, ◌>>=◌, ◌>>◌, pure, raise, gets, statement, wrapped,
}
use buktio.Runtime.Errors.{Error, forbidden_err, not_found_err, mapped}
use buktio.Runtime.Facade.{Services, Context, Target, subject_from, tenant}

unfoldable pub forbidden_msg : String → String
forbidden_msg reason =
    if not (str_eq reason "") then reason else "you do not have permission to perform this action"

unfoldable pub authorize : Services → Context → String → Target → Exec Error (Unit {0})
unfolding forbidden_msg
authorize s ctx action target =
    let d = s.can (subject_from ctx).0 action target in
    if not d.allowed then raise (forbidden_err (forbidden_msg d.reason)) else pure tt

unfoldable pub policy_actor : Context → Exec Error (Unit {0})
policy_actor ctx =
    let subj = (subject_from ctx).0 in
    if subj.platform_admin || str_eq subj.role "owner"
    then pure tt
    else raise (forbidden_err "owner or platform administrator privilege required")

-- The same gate, written out a second time.
unfoldable pub scim_token_actor : Context → Exec Error (Unit {0})
scim_token_actor ctx =
    let subj = (subject_from ctx).0 in
    if subj.platform_admin || str_eq subj.role "owner"
    then pure tt
    else raise (forbidden_err "owner or platform administrator privilege required")

unfoldable pub require_platform_admin : Context → Exec Error (Unit {0})
require_platform_admin ctx =
    if not (subject_from ctx).0.platform_admin
    then raise (forbidden_err "platform administrator privilege required")
    else pure tt

-- What a query for one row returns.
abbrev pub row_or_not_found : {A : Type 0} → Option A → Exec RepoErr A
row_or_not_found none = raise not_found
row_or_not_found (some a) = pure a

-- Store.GetBucket
unfoldable pub get_bucket : String → Exec RepoErr Bucket
get_bucket id = wrapped "repository: get bucket: " (
    statement (λ w.
      row_or_not_found (find (λ (b : Bucket). str_eq b.id id && not b.deleted) w.db.buckets) w))

-- A bucket of another project is not found.
unfoldable pub load_bucket : Services → Context → String → Exec Error Bucket
unfolding get_bucket
load_bucket s ctx id = do
  b ← mapped (get_bucket id)
  if not (str_eq b.project_id (tenant s ctx).project_id) then raise not_found_err else pure b
