-- ===== src/Buckets/Store.antt =====
-- The statements on buckets (internal/repository/buckets.go, LatestUsageForBucket of usage.go).
use buktio.Base.{
  ℕ, String, Bool, true, false, not, ◌&&◌, ◌||◌, Option, none, some, List, ◌∷◌, str_eq, length,
  select, find, any, update_where, or_default, if◌then◌else◌,
}
use buktio.Base.Int.{ℤ}
use buktio.Runtime.Rows.{Db, Organization, Cluster, Bucket, UsageSnapshot}
use buktio.Runtime.World.{
  RepoErr, violation, Exec, ◌>>=◌, ◌>>◌, pure, raise, gets, or_zero, statement, wrapped, put_db,
  draw,
}
use buktio.Runtime.Facade.{Services}

abbrev pub live_bucket : String → Bucket → Bool
live_bucket id b = str_eq b.id id && not b.deleted

-- The unique indexes of live buckets: the name in its project, the backend's id and the alias in
-- the cluster.
abbrev pub clashes : Bucket → Bucket → Bool
clashes b o =
    not o.deleted
    && (str_eq o.project_id b.project_id && str_eq o.name b.name
        || str_eq o.cluster_id b.cluster_id && str_eq o.garage_bucket_id b.garage_bucket_id
        || str_eq o.cluster_id b.cluster_id && str_eq o.garage_global_alias b.garage_global_alias)

-- The foreign keys of a bucket: its organisation and its cluster. Projects are in no table here.
abbrev pub has_owners : Bucket → Db → Bool
has_owners b db =
    any (λ (o : Organization). str_eq o.id b.org_id) db.organizations
    && any (λ (c : Cluster). str_eq c.id b.cluster_id) db.clusters

-- Store.CreateBucket
unfoldable pub insert_bucket : Services → Bucket → Exec RepoErr String
insert_bucket s b = wrapped "repository: create bucket: " (
    statement (λ w.
      (if any (clashes b) w.db.buckets || not (has_owners b w.db) then raise violation else do
        n ← draw
        let id = s.lib.new_uuid n
        put_db (record w.db {
          buckets =
              record b {
                id = id;
                visibility = or_default "private" b.visibility;
                website_index_doc = or_default "index.html" b.website_index_doc;
                created_at = w.now;
                deleted = false;
              }
              ∷ w.db.buckets;
        })
        pure id)
        w))

-- Store.ListBuckets
unfoldable pub bucket_rows : String → Exec RepoErr (List Bucket)
bucket_rows project = wrapped "repository: list buckets: " (
    statement (
      gets
        (λ w. select (λ (b : Bucket). str_eq b.project_id project && not b.deleted) w.db.buckets)))

abbrev update_bucket : String → String → (ℕ → Bucket → Bucket) → Exec RepoErr (Unit {0})
update_bucket prefix id f = wrapped prefix (
    statement (λ w.
      put_db (record w.db { buckets = update_where (live_bucket id) (f w.now) w.db.buckets }) w))

unfoldable pub update_bucket_quota : String → Option ℤ → Option ℤ → Exec RepoErr (Unit {0})
update_bucket_quota id size objects =
    update_bucket "repository: update quota: " id
      (λ now b. record b { quota_max_size = size; quota_max_objects = objects })

unfoldable pub update_bucket_visibility :
    String → String → Bool → String → String → Exec RepoErr (Unit {0})
update_bucket_visibility id visibility enabled index error_doc =
    update_bucket "repository: update visibility: " id (λ now b. record b {
      visibility = visibility;
      website_enabled = enabled;
      website_index_doc = or_default "index.html" index;
      website_error_doc = error_doc;
    })

unfoldable pub soft_delete_bucket : String → Exec RepoErr (Unit {0})
soft_delete_bucket id =
    update_bucket "repository: soft delete bucket: " id (λ now b. record b { deleted = true })

unfoldable pub count_buckets : String → Exec RepoErr ℕ
count_buckets project = statement (
    gets (λ w.
      length (select (λ (b : Bucket). str_eq b.project_id project && not b.deleted) w.db.buckets)))

-- The bytes and objects of the newest snapshot; without one, or where it cannot be read, zero.
unfoldable pub latest_usage_for_bucket : {E : Type 0} → String → Exec E (ℕ × ℕ)
latest_usage_for_bucket id =
    or_zero (0, 0)
      (statement (
        gets (λ w. elim (find (λ (u : UsageSnapshot). str_eq u.bucket_id id) w.db.usage) [
          | none ↦ (0, 0)
          | some u ↦ (u.bytes_used, u.object_count)
        ])))
