-- ===== src/Clusters.antt =====
-- Storage clusters (internal/service/clusters.go). The registry is always there.
pub mod Store
pub mod Registry
pub mod Removal
use buktio.Base.{
  ℕ, String, ◌<>◌, Bool, not, ◌&&◌, ◌||◌, Option, none, some, List, [], ◌∷◌, ltb, str_eq,
  if◌then◌else◌,
}
use buktio.Runtime.Rows.{Cluster, ProviderConfig}
use buktio.Runtime.World.{
  World, text, ping, RepoErr, failed, Result, ok, err, Exec, ◌>>=◌, ◌>>◌, pure, raise, gets,
  attempt, call_out, Call,
}
use buktio.Runtime.Errors.{
  Error, validation_err, conflict_err, storage_unavailable_err, map_repo_err, mapped,
}
use buktio.Runtime.Facade.{Services, Context, target_of}
use buktio.Audit.{audit}
use buktio.Guard.{authorize}
use buktio.Clusters.Store.{
  get_cluster_by_id, cluster_rows, insert_cluster, soft_delete_cluster, count_buckets_in_cluster,
}
use buktio.Clusters.Registry.{
  Capabilities, Registry as ClusterRegistry, capabilities, provider, invalidate, is_generic,
  new_provider,
}

pub record ClusterDto : Type 0 where
  pub id : String
  pub name : String
  pub provider : String
  pub mode : String
  pub s3_endpoint : String
  pub s3_region : String
  pub status : String
  pub is_primary : Bool
  pub bucket_count : ℕ
  pub capabilities : Option Capabilities

pub record AddClusterInput : Type 0 where
  pub name : String
  pub provider : String
  pub s3_endpoint : String
  pub s3_region : String
  pub access_key_id : String
  pub secret_access_key : String
  pub public_endpoint : String

-- The network, and the sealer of secrets at the n-th random draw.
pub record Probe : Type 0 where
  pub unreachable : List Call → ProviderConfig → Option String
  pub seal : World → String → Result String String

abbrev pub or_no_connection : Option String → Exec Error (Unit {0})
or_no_connection none = pure tt
or_no_connection (some msg) =
    raise
      (storage_unavailable_err ("could not connect to backend with supplied credentials: " <> msg))

abbrev pub or_unsupported : Result String ProviderConfig → Exec Error ProviderConfig
or_unsupported (ok p) = pure p
or_unsupported (err msg) = raise (validation_err ("unsupported provider: " <> msg))

abbrev pub or_unsealed : Result String String → Exec Error String
or_unsealed (ok secret) = pure secret
or_unsealed (err msg) = raise (map_repo_err (failed msg))

-- The checks of AddCluster on its input, in their order.
unfoldable pub input_error : AddClusterInput → Option String
unfolding is_generic
input_error input =
    if str_eq input.name ""
    then some "name is required"
    else if not (is_generic input.provider)
    then some
        "provider must be one of: aws_s3, r2, b2, seaweedfs, ceph_rgw, wasabi, storj, hetzner, gcs, minio"
    else if str_eq input.access_key_id "" || str_eq input.secret_access_key ""
    then some "access key id and secret are required"
    else if not (str_eq input.provider "aws_s3") && str_eq input.s3_endpoint ""
    then some "s3_endpoint is required for this provider"
    else none

abbrev pub or_invalid : Option String → Exec Error (Unit {0})
or_invalid none = pure tt
or_invalid (some msg) = raise (validation_err msg)

abbrev pub region_of : AddClusterInput → String
region_of input =
    if str_eq input.s3_region ""
    then (if str_eq input.provider "r2" then "auto" else "us-east-1")
    else input.s3_region

abbrev pub public_of : AddClusterInput → String
public_of input =
    if str_eq input.public_endpoint "" then input.s3_endpoint else input.public_endpoint

abbrev pub probe_config : AddClusterInput → ProviderConfig
probe_config input = record {
  kind = input.provider;
  s3_endpoint = input.s3_endpoint;
  s3_region = region_of input;
  admin_url = "";
  admin_token = "";
  access_key_id = input.access_key_id;
  secret_access_key = input.secret_access_key;
  s3_public_endpoint = public_of input;
}

abbrev pub new_cluster : AddClusterInput → String → Cluster
new_cluster input sealed = record {
  id = "";
  name = input.name;
  provider = input.provider;
  mode = "external";
  s3_endpoint = input.s3_endpoint;
  admin_endpoint = "";
  s3_region = region_of input;
  web_endpoint = public_of input;
  admin_token_enc = "";
  system_s3_access_key_id = input.access_key_id;
  system_s3_secret_enc = sealed;
  status = "healthy";
  deleted = Bool.false;
}

module _ (s : Services) (r : ClusterRegistry) where
  unfoldable pub cluster_to_dto : Cluster → Exec Error ClusterDto
  cluster_to_dto c = do
    n ← attempt (count_buckets_in_cluster c.id)
    p ← attempt (provider r c.id)
    pure (record {
      id = c.id;
      name = c.name;
      provider = c.provider;
      mode = c.mode;
      s3_endpoint = c.s3_endpoint;
      s3_region = c.s3_region;
      status = c.status;
      is_primary = str_eq c.id s.cluster_id;
      bucket_count = elim n [ none ↦ 0 | some k ↦ k ];
      capabilities = elim p [ none ↦ none | some cfg ↦ some (capabilities cfg) ];
    })

  unfoldable pub cluster_dtos : List Cluster → Exec Error (List ClusterDto)
  cluster_dtos [] = pure []
  cluster_dtos (c ∷ cs) = do dto ← cluster_to_dto c; rest ← cluster_dtos cs; pure (dto ∷ rest)

  unfoldable pub list_clusters : Exec Error (List ClusterDto)
  unfolding cluster_dtos cluster_to_dto
  list_clusters = do rows ← mapped cluster_rows; cluster_dtos rows

  unfoldable pub get_cluster : String → Exec Error ClusterDto
  unfolding cluster_to_dto
  get_cluster id = do c ← mapped (get_cluster_by_id id); cluster_to_dto c

  module _ (ctx : Context) where
    unfoldable pub add_cluster : Probe → AddClusterInput → Exec Error ClusterDto
    unfolding input_error get_cluster
    add_cluster net input = do
      authorize s ctx "create" (target_of "cluster" "")
      or_invalid (input_error input)
      probe ← or_unsupported (new_provider (probe_config input))
      failure ← gets (λ w. net.unreachable w.trail probe)
      call_out (ping input.s3_endpoint)
      or_no_connection failure
      sealing ← gets (λ w. net.seal w input.secret_access_key)
      sealed ← or_unsealed sealing
      id ← mapped (insert_cluster s (new_cluster input sealed))
      invalidate id
      audit s ctx "cluster.add" "cluster" id
          (some (("name", text input.name) ∷ ("provider", text input.provider) ∷ []))
      get_cluster id

    unfoldable pub remove_cluster : String → Exec Error (Unit {0})
    remove_cluster id = do
      authorize s ctx "delete" (target_of "cluster" id)
      c ← mapped (get_cluster_by_id id)
      if str_eq c.id s.cluster_id
          then raise (conflict_err "cannot remove the primary cluster")
          else pure tt
      n ← mapped (count_buckets_in_cluster id)
      if ltb 0 n then raise (conflict_err "remove the cluster's buckets first") else pure tt
      mapped (soft_delete_cluster id)
      invalidate id
      audit s ctx "cluster.remove" "cluster" id (some (("name", text c.name) ∷ []))
