-- ===== src/Clusters/Registry.antt =====
-- The registry of clusters, which makes a provider for a cluster once and keeps it
-- (internal/cluster/registry.go), the table of backend kinds (internal/storage/registry.go) and the
-- constructors and capabilities of the backends (internal/storage/garage/provider.go,
-- internal/storage/s3generic/provider.go). A provider is known by its configuration.
use buktio.Base.{
  String, ◌<>◌, Bool, true, false, not, ◌||◌, Option, none, some, List, [], ◌∷◌, str_eq, any,
  select, if◌then◌else◌,
}
use buktio.Runtime.Rows.{Cluster, ProviderConfig}
use buktio.Runtime.World.{
  RepoErr, failed, Result, ok, err, Exec, ◌>>=◌, ◌>>◌, pure, raise, gets, attempt, put_db,
}
use buktio.Clusters.Store.{get_active_cluster, get_cluster_by_id, default_cluster_for_org}

-- The kinds that the packages s3generic and garage register.
abbrev pub generic_kinds : List String
generic_kinds =
    "aws_s3" ∷ "r2" ∷ "b2" ∷ "seaweedfs" ∷ "ceph_rgw" ∷ "wasabi" ∷ "storj" ∷ "hetzner" ∷ "gcs"
    ∷ "minio" ∷ []

unfoldable pub is_generic : String → Bool
is_generic kind = any (str_eq kind) generic_kinds

-- storage.Capabilities
pub record Capabilities : Type 0 where
  pub object_versioning : Bool
  pub per_object_public_acl : Bool
  pub bucket_cors : Bool
  pub lifecycle_expiry : Bool
  pub manages_keys : Bool
  pub manages_quota : Bool
  pub has_cluster_health : Bool
  pub public_website : Bool

unfoldable pub garage_capabilities : Capabilities
garage_capabilities = record {
  object_versioning = false;
  per_object_public_acl = false;
  bucket_cors = true;
  lifecycle_expiry = true;
  manages_keys = true;
  manages_quota = true;
  has_cluster_health = true;
  public_website = true;
}

unfoldable pub generic_capabilities : String → Capabilities
generic_capabilities kind = record {
  object_versioning = str_eq kind "aws_s3";
  per_object_public_acl = str_eq kind "aws_s3";
  bucket_cors = true;
  lifecycle_expiry = true;
  manages_keys = false;
  manages_quota = false;
  has_cluster_health = false;
  public_website = false;
}

unfoldable pub capabilities : ProviderConfig → Capabilities
unfolding garage_capabilities generic_capabilities
capabilities cfg =
    if str_eq cfg.kind "garage" then garage_capabilities else generic_capabilities cfg.kind

-- storage.New: the constructors of the registered kinds do not fail.
unfoldable pub new_provider : ProviderConfig → Result String ProviderConfig
unfolding is_generic
new_provider cfg =
    if str_eq cfg.kind "garage" || is_generic cfg.kind
    then ok cfg
    else err ("storage: unknown provider " <> cfg.kind)

-- cluster.Registry: the sealer of secrets and the endpoint of the primary cluster.
pub record Registry : Type 0 where
  pub open_secret : String → Result String String
  pub primary_public_endpoint : String

-- An empty column holds no secret.
abbrev pub opened : Registry → String → String → Result String String
opened r what sealed =
    if str_eq sealed ""
    then ok ""
    else elim (r.open_secret sealed) [ ok secret ↦ ok secret | err msg ↦ err (what <> msg) ]

-- The endpoint that presigned addresses name.
abbrev pub public_endpoint : Registry → Cluster → String
public_endpoint r c =
    if str_eq c.provider "garage"
    then r.primary_public_endpoint
    else if str_eq c.web_endpoint ""
    then c.s3_endpoint
    else c.web_endpoint

unfoldable pub build : Registry → Cluster → Result String ProviderConfig
unfolding new_provider
build r c = elim (opened r "cluster: decrypt admin token: " c.admin_token_enc) [
  | err msg ↦ err msg
  | ok token ↦ elim (opened r "cluster: decrypt system key secret: " c.system_s3_secret_enc) [
    | err msg ↦ err msg
    | ok secret ↦ new_provider (record {
      kind = c.provider;
      s3_endpoint = c.s3_endpoint;
      s3_region = c.s3_region;
      admin_url = c.admin_endpoint;
      admin_token = token;
      access_key_id = c.system_s3_access_key_id;
      secret_access_key = secret;
      s3_public_endpoint = public_endpoint r c;
    })
  ]
]

-- The map of the registry.
unfoldable pub cached : String → List (String × ProviderConfig) → Option ProviderConfig
cached id [] = none
cached id ((k, p) ∷ rest) = if str_eq k id then some p else cached id rest

unfoldable pub uncached : String → List (String × ProviderConfig) → List (String × ProviderConfig)
uncached id rows = select (λ e. not (str_eq e.0 id)) rows

unfoldable pub remember : {E : Type 0} → String → ProviderConfig → Exec E (Unit {0})
remember id p w = put_db (record w.db { cache = (id, p) ∷ w.db.cache }) w

unfoldable pub invalidate : {E : Type 0} → String → Exec E (Unit {0})
unfolding uncached
invalidate id w = put_db (record w.db { cache = uncached id w.db.cache }) w

abbrev pub or_failed : {A : Type 0} → Result String A → Exec RepoErr A
or_failed (ok a) = pure a
or_failed (err msg) = raise (failed msg)

module _ (r : Registry) where
  -- The miss of Registry.Provider.
  unfoldable pub make_provider : String → Exec RepoErr ProviderConfig
  unfolding remember
  make_provider id = do c ← get_cluster_by_id id; p ← or_failed (build r c); remember id p; pure p

  unfoldable pub provider : String → Exec RepoErr ProviderConfig
  unfolding make_provider cached
  provider id = do
    hit ← gets (λ w. cached id w.db.cache)
    elim hit [ some p ↦ pure p | none ↦ make_provider id ]

  unfoldable pub primary : Exec RepoErr (ProviderConfig × Cluster)
  unfolding provider
  primary = do c ← get_active_cluster; p ← provider c.id; pure (p, c)

  unfoldable pub provider_or_primary : Option String → Exec RepoErr (ProviderConfig × String)
  unfolding provider primary
  provider_or_primary none = do (p, c) ← primary; pure (p, c.id)
  provider_or_primary (some id) = do p ← provider id; pure (p, id)

  -- A default cluster that cannot be read, or with an empty id, counts as none.
  abbrev pub named : Option String → Option String
  named none = none
  named (some id) = if str_eq id "" then none else some id

  unfoldable pub provider_for_org : String → Exec RepoErr (ProviderConfig × String)
  unfolding provider_or_primary
  provider_for_org org = if str_eq org "" then provider_or_primary none else do
    mapped_to ← attempt (default_cluster_for_org org)
    provider_or_primary (named mapped_to)
