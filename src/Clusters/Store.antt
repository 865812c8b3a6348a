-- ===== src/Clusters/Store.antt =====
-- The statements on storage clusters and their organisations (internal/repository/clusters.go,
-- org_clusters.go).
use buktio.Base.{
  ℕ, String, Bool, true, false, not, ◌&&◌, Option, none, some, List, [], ◌∷◌, ◌++◌, str_eq, length,
  select, find, any, update_where, or_default, if◌then◌else◌,
}
use buktio.Runtime.Rows.{Cluster, OrgClusterRow, Bucket}
use buktio.Runtime.World.{
  RepoErr, violation, no_uuid, not_found, Exec, ◌>>=◌, ◌>>◌, pure, raise, gets, statement, wrapped,
  put_db, draw,
}
use buktio.Runtime.Facade.{Services}
use buktio.Guard.{row_or_not_found}

abbrev pub is_live : Cluster → Bool
is_live c = not c.deleted

abbrev pub live_cluster : String → Cluster → Bool
live_cluster id c = str_eq c.id id && not c.deleted

-- The oldest live cluster.
unfoldable pub get_active_cluster : Exec RepoErr Cluster
get_active_cluster =
    wrapped "repository: get cluster: "
      (statement (λ w. row_or_not_found (find is_live w.db.clusters) w))

-- `WHERE id=$1::uuid AND deleted_at IS NULL`
unfoldable pub get_cluster_by_id : String → Exec RepoErr Cluster
get_cluster_by_id id = wrapped "repository: get cluster: " (
    statement (λ w. elim (w.db.uuid id) [
      | none ↦ raise no_uuid w
      | some i ↦ row_or_not_found (find (live_cluster i) w.db.clusters) w
    ]))

-- Store.ListClusters
unfoldable pub cluster_rows : Exec RepoErr (List Cluster)
cluster_rows =
    wrapped "repository: list clusters: " (statement (gets (λ w. select is_live w.db.clusters)))

-- Store.CreateCluster: the id is generated, and is the primary key.
unfoldable pub insert_cluster : Services → Cluster → Exec RepoErr String
insert_cluster s c = wrapped "repository: create cluster: " (
    statement (λ w.
      (do
        n ← draw
        let id = s.lib.new_uuid n
        if any (λ (o : Cluster). str_eq o.id id) w.db.clusters then raise violation else do
          put_db (record w.db {
            clusters =
                w.db.clusters
                ++ record c {
                  id = id;
                  provider = or_default "garage" c.provider;
                  mode = or_default "managed" c.mode;
                  status = or_default "healthy" c.status;
                  deleted = false;
                }
                  ∷ [];
          })
          pure id)
        w))

unfoldable pub update_cluster_status : String → String → Exec RepoErr (Unit {0})
update_cluster_status id status = wrapped "repository: update cluster status: " (
    statement (λ w.
      put_db
        (record w.db {
          clusters =
              update_where (live_cluster id) (λ c. record c { status = status }) w.db.clusters;
        })
        w))

-- `SET deleted_at=now() WHERE id=$1::uuid AND deleted_at IS NULL`
abbrev pub mark_deleted : String → List Cluster → List Cluster
mark_deleted id cs = update_where (live_cluster id) (λ c. record c { deleted = true }) cs

unfoldable pub soft_delete_cluster : String → Exec RepoErr (Unit {0})
soft_delete_cluster id = statement (λ w. elim (w.db.uuid id) [
  | none ↦ raise no_uuid w
  | some i ↦ put_db (record w.db { clusters = mark_deleted i w.db.clusters }) w
])

abbrev pub in_cluster : String → Bucket → Bool
in_cluster id b = str_eq b.cluster_id id && not b.deleted

unfoldable pub count_buckets_in_cluster : String → Exec RepoErr ℕ
count_buckets_in_cluster id = wrapped "repository: count buckets in cluster: " (
    statement (λ w. elim (w.db.uuid id) [
      | none ↦ raise no_uuid w
      | some i ↦ pure (length (select (in_cluster i) w.db.buckets)) w
    ]))

abbrev pub is_assignment : String → String → OrgClusterRow → Bool
is_assignment org cluster a = str_eq a.org_id org && str_eq a.storage_cluster_id cluster

-- `ON CONFLICT (org_id, storage_cluster_id) DO UPDATE SET is_default`
abbrev pub assigned : String → String → Bool → List OrgClusterRow → List OrgClusterRow
assigned org cluster is_default rows =
    if any (is_assignment org cluster) rows
    then update_where (is_assignment org cluster) (λ a. record a { is_default = is_default }) rows
    else rows ++ record { org_id = org; storage_cluster_id = cluster; is_default = is_default } ∷ []

-- `UPDATE … SET is_default=false WHERE org_id=$1 AND is_default`
abbrev pub without_default : String → List OrgClusterRow → List OrgClusterRow
without_default org rows =
    update_where (λ a. str_eq a.org_id org && a.is_default) (λ a. record a { is_default = false })
      rows

unfoldable pub clear_default_cluster : String → Exec RepoErr (Unit {0})
clear_default_cluster org = wrapped "repository: clear default cluster: " (
    statement
      (λ w. put_db (record w.db { org_clusters = without_default org w.db.org_clusters }) w))

-- Two statements, not in a transaction.
unfoldable pub assign_cluster_to_org : String → String → Bool → Exec RepoErr (Unit {0})
unfolding clear_default_cluster
assign_cluster_to_org org cluster make_default = do
  if make_default then clear_default_cluster org else pure tt
  wrapped "repository: assign cluster to org: " (
      statement (λ w.
        put_db (record w.db { org_clusters = assigned org cluster make_default w.db.org_clusters })
          w))

unfoldable pub unassign_cluster_from_org : String → String → Exec RepoErr (Unit {0})
unassign_cluster_from_org org cluster = wrapped "repository: unassign cluster: " (
    statement (λ w.
      (if not (any (is_assignment org cluster) w.db.org_clusters)
          then raise not_found
          else put_db (record w.db {
            org_clusters = select (λ a. not (is_assignment org cluster a)) w.db.org_clusters;
          }))
        w))

-- The live cluster of the organisation's default assignment.
unfoldable pub default_of : String → List Cluster → List OrgClusterRow → Option String
default_of org clusters [] = none
default_of org clusters (a ∷ as') =
    if str_eq a.org_id org && a.is_default && any (live_cluster a.storage_cluster_id) clusters
    then some a.storage_cluster_id
    else default_of org clusters as'

unfoldable pub default_cluster_for_org : String → Exec RepoErr String
unfolding default_of
default_cluster_for_org org =
    wrapped "repository: default cluster for org: "
      (statement (λ w. row_or_not_found (default_of org w.db.clusters w.db.org_clusters) w))
