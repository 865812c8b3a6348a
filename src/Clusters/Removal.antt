-- ===== src/Clusters/Removal.antt =====
-- Removing a cluster and the cache of the registry (RemoveCluster of internal/service/clusters.go,
-- Registry.Provider and Invalidate of internal/cluster/registry.go).
use buktio.Base.{
  ◌≡◌, ◌≢◌, refl, ap, ◌∙◌, String, true, false, none, some, List, [], ◌∷◌, arith, str_eq, eq_iff,
  eq_refl, length, select, find, if◌then◌else◌,
}
use buktio.Runtime.Rows.{Db, Cluster, ProviderConfig}
use buktio.Runtime.World.{World, not_found, ok, err, text}
use buktio.Runtime.Errors.{Error, actions}
use buktio.Runtime.Facade.{Services, Context, subject_from, target_of}
use buktio.Audit.Frame.{audit-db, audit-ok}
use buktio.Guard.{authorize}
use buktio.Clusters.Store.{
  live_cluster, in_cluster, mark_deleted, get_cluster_by_id, soft_delete_cluster,
  count_buckets_in_cluster,
}
use buktio.Clusters.Registry.{
  Registry as ClusterRegistry, cached, uncached, invalidate, make_provider, provider,
}
use buktio.Clusters.{remove_cluster}

cached-uncached :
    (id k : String) (rows : List (String × ProviderConfig))
    → cached k (uncached id rows) ≡ (if str_eq k id then none else cached k rows)
unfolding cached uncached
cached-uncached id k [] = ground arith
cached-uncached id k ((j, p) ∷ rows) =
    ground (arith, eq_iff j id, eq_iff j k, eq_iff k id, cached-uncached id k rows)

find-mark_deleted :
    (id : String) (cs : List Cluster) → find (live_cluster id) (mark_deleted id cs) ≡ none
find-mark_deleted id [] = refl
find-mark_deleted id (x ∷ cs) = ground (arith, find-mark_deleted id cs)

module _ (s : Services) (r : ClusterRegistry) (ctx : Context) (id i : String) (c : Cluster)
    (w : World) (reliable : w.faults ≡ []) (read : w.db.uuid id ≡ some i)
    (found : find (live_cluster i) w.db.clusters ≡ some c)
    (other : str_eq c.id s.cluster_id ≡ false)
    (unused : length (select (in_cluster i) w.db.buckets) ≡ 0)
    (allowed : (s.can (subject_from ctx).0 "delete" (target_of "cluster" id)).allowed ≡ true) where
  abbrev removed_db : Db
  removed_db = record w.db {
    clusters = mark_deleted i w.db.clusters;
    cache = uncached id w.db.cache;
  }

  removed :
      ((remove_cluster s r ctx id w).0 ≡ ok tt) × ((remove_cluster s r ctx id w).1.db ≡ removed_db)
  unfolding remove_cluster authorize get_cluster_by_id count_buckets_in_cluster soft_delete_cluster
      invalidate actions
  removed =
      let w' = record w { db = removed_db } in
      (
        ground (
          arith,
          audit-ok s ctx "cluster.remove" "cluster" id (some (("name", text c.name) ∷ []))
              {E = Error} w',
        ),
        ground (
          arith,
          audit-db s ctx "cluster.remove" "cluster" id (some (("name", text c.name) ∷ [])) Error w',
        ),
      )

provider-missing :
    (r : ClusterRegistry) (id : String) (v : World)
    → v.faults ≡ []
    → v.db.uuid id ≡ some id
    → cached id v.db.cache ≡ none
    → find (live_cluster id) v.db.clusters ≡ none
    → (provider r id v).0 ≡ err not_found
unfolding provider make_provider get_cluster_by_id actions
provider-missing r id v f read uncached gone = ground (arith, f, read, uncached, gone)

provider-cached :
    (r : ClusterRegistry) (id : String) (p : ProviderConfig) (v : World)
    → cached id v.db.cache ≡ some p
    → (provider r id v).0 ≡ ok p
unfolding provider actions
provider-cached r id p v hit = ground (arith, hit)

-- Where no statement fails, the actor has the permission, and the cluster is live, not the primary
-- one and without buckets: removing it by its id as the database spells it succeeds, its row is
-- marked, and in a later world with this database the registry does not find the cluster, whatever
-- it had in its cache. The cache answers for every other cluster as before.
pub remove_cluster-provider :
    (s : Services) (r : ClusterRegistry) (ctx : Context) (id k : String) (c : Cluster) (w v : World)
    → w.faults ≡ []
    → w.db.uuid id ≡ some id
    → find (live_cluster id) w.db.clusters ≡ some c
    → str_eq c.id s.cluster_id ≡ false
    → length (select (in_cluster id) w.db.buckets) ≡ 0
    → (s.can (subject_from ctx).0 "delete" (target_of "cluster" id)).allowed ≡ true
    → v.db ≡ (remove_cluster s r ctx id w).1.db
    → v.faults ≡ []
    → ((remove_cluster s r ctx id w).0 ≡ ok tt)
      × (v.db.clusters ≡ mark_deleted id w.db.clusters)
      × ((provider r id v).0 ≡ err not_found)
      × (cached k v.db.cache ≡ (if str_eq k id then none else cached k w.db.cache))
remove_cluster-provider s r ctx id k c w v f read found other unused allowed same f' =
    let (done, db) = removed s r ctx id id c w f read found other unused allowed in
    let now_is = same ∙ db in
    (
      done,
      ap (λ (d : Db). d.clusters) now_is,
      provider-missing r id v f' (ap (λ (d : Db). d.uuid id) now_is ∙ read)
          (ap (λ (d : Db). cached id d.cache) now_is
            ∙ cached-uncached id id w.db.cache
            ∙ ground (arith, eq_refl id))
          (ap (λ (d : Db). find (live_cluster id) d.clusters) now_is
            ∙ find-mark_deleted id w.db.clusters),
      ap (λ (d : Db). cached k d.cache) now_is ∙ cached-uncached id k w.db.cache,
    )

-- The statements read the id, the cache is a map of texts. Where no statement fails, the actor has
-- the permission, and the cluster is live, not the primary one and without buckets: removing it by
-- another text that the database reads as its id (its id in capitals, say) succeeds and marks its
-- row, and in a later world with this database the registry still answers with the provider that it
-- had in its cache.
pub remove_cluster_respelled :
    (s : Services) (r : ClusterRegistry) (ctx : Context) (id i : String) (c : Cluster)
    (p : ProviderConfig) (w v : World)
    → w.faults ≡ []
    → w.db.uuid id ≡ some i
    → i ≢ id
    → cached i w.db.cache ≡ some p
    → find (live_cluster i) w.db.clusters ≡ some c
    → str_eq c.id s.cluster_id ≡ false
    → length (select (in_cluster i) w.db.buckets) ≡ 0
    → (s.can (subject_from ctx).0 "delete" (target_of "cluster" id)).allowed ≡ true
    → v.db ≡ (remove_cluster s r ctx id w).1.db
    → ((remove_cluster s r ctx id w).0 ≡ ok tt)
      × (v.db.clusters ≡ mark_deleted i w.db.clusters)
      × (find (live_cluster i) v.db.clusters ≡ none)
      × ((provider r i v).0 ≡ ok p)
remove_cluster_respelled s r ctx id i c p w v f read differs hit found other unused allowed same =
    let (done, db) = removed s r ctx id i c w f read found other unused allowed in
    let now_is = same ∙ db in
    let kept : cached i (uncached id w.db.cache) ≡ some p =
      cached-uncached id i w.db.cache ∙ ground (arith, hit, eq_iff i id) in
    (
      done,
      ap (λ (d : Db). d.clusters) now_is,
      ap (λ (d : Db). find (live_cluster i) d.clusters) now_is ∙ find-mark_deleted i w.db.clusters,
      provider-cached r i p v (ap (λ (d : Db). cached i d.cache) now_is ∙ kept),
    )
