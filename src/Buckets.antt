-- ===== src/Buckets.antt =====
-- Buckets (internal/service/buckets.go and the DTOs of internal/service/service.go).
pub mod Store
pub mod Empty
pub mod Compensation
use buktio.Base.{
  ℕ, zero, suc, ◌==◌, String, ◌<>◌, Bool, true, false, not, ◌&&◌, ◌||◌, Option, none, some, List,
  [], ◌∷◌, length, ltb, str_eq, if◌then◌else◌,
}
use buktio.Base.Int.{ℤ, pos}
use buktio.Runtime.Rows.{Bucket, ProviderConfig}
use buktio.Runtime.World.{
  World, text, flag, Call, RepoErr, Result, ok, err, Exec, ◌>>=◌, ◌>>◌, pure, raise, gets, attempt,
  call_out, create_on_backend, drop_on_backend, grant_on_backend, set_backend_quota,
  set_backend_visibility, read_usage, list_keys, delete_objects,
}
use buktio.Runtime.Errors.{
  Error, validation_err, storage_unavailable_err, unsupported_err, map_repo_err, mapped,
}
use buktio.Runtime.Facade.{Services, Context, tenant, target_of}
use buktio.Audit.{audit}
use buktio.Guard.{authorize, load_bucket}
use buktio.Validate.{validate_bucket_name}
use buktio.Quota.{quota_guard}
use buktio.Clusters.Store.{get_cluster_by_id}
use buktio.Clusters.Registry.{Registry, provider_for_org}
use buktio.Metering.{emit}
use buktio.Storage.{
  Storage, Object, Page, ListInput, ask, or_storage, or_storage_err, provider_for_bucket,
  or_unreachable,
}
use buktio.Buckets.Store.{
  insert_bucket, bucket_rows, update_bucket_quota, update_bucket_visibility, soft_delete_bucket,
  latest_usage_for_bucket,
}

-- QuotaDTO, UsageDTO and BucketDTO
pub record QuotaDto : Type 0 where
  pub max_bytes : Option ℤ
  pub max_objects : Option ℤ

pub record BucketDto : Type 0 where
  pub id : String
  pub name : String
  pub garage_id : String
  pub cluster_id : String
  pub visibility : String
  pub website_enabled : Bool
  pub public_url : String
  pub quota : QuotaDto
  pub usage : ℕ × ℕ
  pub created_at : ℕ

unfoldable pub bucket_to_dto : Services → Bucket → ℕ × ℕ → BucketDto
bucket_to_dto s b usage = record {
  id = b.id;
  name = b.name;
  garage_id = b.garage_bucket_id;
  cluster_id = b.cluster_id;
  visibility = b.visibility;
  website_enabled = b.website_enabled;
  public_url =
      if b.website_enabled && not (str_eq s.web_public_domain "")
      then "https://" <> b.garage_global_alias <> "." <> s.web_public_domain <> "/"
      else "";
  quota = record { max_bytes = b.quota_max_size; max_objects = b.quota_max_objects };
  usage = usage;
  created_at = b.created_at;
}

-- The keys of a page that are not prefixes.
abbrev pub object_keys : List Object → List String
object_keys [] = []
object_keys (o ∷ os) = let rest = object_keys os in if o.is_prefix then rest else o.key ∷ rest

unfoldable pub page_size : ℕ
page_size = 1000

abbrev pub first_page : ListInput
first_page = record { prefix = ""; delimiter = ""; token = ""; max_keys = page_size }

module _ (st : Storage) where
  -- The rounds of emptyBucket that are left.
  unfoldable pub empty_rounds : ℕ → String → Exec Error (Unit {0})
  empty_rounds zero alias = pure tt
  empty_rounds (suc n) alias = do
    answer ← ask (λ t. st.list t alias first_page) (list_keys alias "")
    page ← or_storage answer
    let keys = object_keys page.objects
    if length keys == 0 then pure tt else do
      removed ← ask (λ t. st.delete_many t alias keys) (delete_objects alias keys)
      or_storage_err removed
      if not page.is_truncated && ltb (length keys) page_size then pure tt else empty_rounds n alias

  unfoldable pub empty_bucket : String → Exec Error (Unit {0})
  unfolding empty_rounds
  empty_bucket alias = empty_rounds 1000 alias

abbrev pub or_invalid_name : Result String (Unit {0}) → Exec Error (Unit {0})
or_invalid_name (ok u) = pure tt
or_invalid_name (err msg) = raise (validation_err msg)

abbrev pub or_no_cluster : Option String → Exec Error (Unit {0})
or_no_cluster none = pure tt
or_no_cluster (some msg) =
    raise (storage_unavailable_err ("cannot reach the selected cluster: " <> msg))

-- The cluster of the organisation, where it has one.
abbrev pub cluster_or : String → Option (ProviderConfig × String) → String
cluster_or primary none = primary
cluster_or primary (some (p, id)) = if str_eq id "" then primary else id

module _ (s : Services) (st : Storage) (ctx : Context) where
  unfoldable pub live_usage : Bucket → Exec Error (ℕ × ℕ)
  live_usage b = do
    answer ←
        ask (λ t. st.usage t b.cluster_id b.garage_bucket_id)
          (read_usage b.cluster_id b.garage_bucket_id)
    elim answer [ ok u ↦ pure u | err e ↦ latest_usage_for_bucket b.id ]

  unfoldable pub get_bucket_dto : String → Exec Error BucketDto
  unfolding live_usage bucket_to_dto
  get_bucket_dto id = do
    b ← load_bucket s ctx id
    failure ← provider_for_bucket st b
    usage ← elim failure [ none ↦ live_usage b | some msg ↦ latest_usage_for_bucket b.id ]
    pure (bucket_to_dto s b usage)

  unfoldable pub dtos_with_usage : List Bucket → Exec Error (List BucketDto)
  unfolding bucket_to_dto
  dtos_with_usage [] = pure []
  dtos_with_usage (b ∷ bs) = do
    usage ← latest_usage_for_bucket b.id
    rest ← dtos_with_usage bs
    pure (bucket_to_dto s b usage ∷ rest)

  unfoldable pub list_buckets : Exec Error (List BucketDto)
  unfolding dtos_with_usage
  list_buckets = do rows ← mapped (bucket_rows (tenant s ctx).project_id); dtos_with_usage rows

  -- The cluster for a new bucket: the one that is named, else that of the organisation, else the
  -- primary one.
  unfoldable pub choose_cluster : Registry → String → Exec Error String
  choose_cluster r cluster_id = if not (str_eq cluster_id "") then pure cluster_id else do
    found ← attempt (provider_for_org r (tenant s ctx).org_id)
    pure (cluster_or s.cluster_id found)

  unfoldable pub known_cluster : String → Exec Error (Unit {0})
  known_cluster cid = if str_eq cid s.cluster_id then pure tt else do
    c ← attempt (get_cluster_by_id cid)
    elim c [ none ↦ raise (validation_err "unknown or invalid cluster_id") | some c ↦ pure tt ]

  abbrev pub new_bucket : String → String → String → QuotaDto → Bucket
  new_bucket cid name garage_id quota = record {
    id = "";
    org_id = (tenant s ctx).org_id;
    project_id = (tenant s ctx).project_id;
    cluster_id = cid;
    name = name;
    garage_bucket_id = garage_id;
    garage_global_alias = name;
    visibility = "private";
    website_enabled = false;
    website_index_doc = "";
    website_error_doc = "";
    quota_max_size = quota.max_bytes;
    quota_max_objects = quota.max_objects;
    created_at = 0;
    deleted = false;
  }

  unfoldable pub grant_system_key : String → String → Exec Error (Unit {0})
  grant_system_key cid garage_id =
      let perms = true ∷ true ∷ true ∷ [] in
      if not ((st.capabilities cid).manages_keys && not (str_eq s.system_key_id ""))
      then pure tt
      else do
        refused ←
            ask (λ t. st.grant_key t cid garage_id s.system_key_id perms)
              (grant_on_backend cid garage_id s.system_key_id perms)
        or_storage_err refused

  unfoldable pub apply_quota : String → String → QuotaDto → Exec Error (Unit {0})
  apply_quota cid garage_id quota = do
    refused ←
        ask (λ t. st.set_quota t cid garage_id quota.max_bytes quota.max_objects)
          (set_backend_quota cid garage_id quota.max_bytes quota.max_objects)
    or_storage_err refused

  abbrev pub is_limited : QuotaDto → Bool
  is_limited quota = elim quota.max_bytes [
    | some n ↦ true
    | none ↦ elim quota.max_objects [ some n ↦ true | none ↦ false ]
  ]

  -- The backend's bucket is dropped again where the row is refused.
  unfoldable pub record_bucket : String → String → String → QuotaDto → Exec Error String
  record_bucket cid name garage_id quota w =
      let (inserted, v) = insert_bucket s (new_bucket cid name garage_id quota) w in
      elim inserted [
        | ok id ↦ (ok id, v)
        | err e ↦
            (ask (λ t. st.drop_bucket t cid garage_id) (drop_on_backend cid garage_id) >>= λ _.
            raise (map_repo_err e))
              v
      ]

  unfoldable pub create_bucket : Registry → String → QuotaDto → String → Exec Error BucketDto
  unfolding choose_cluster known_cluster grant_system_key apply_quota record_bucket get_bucket_dto
  create_bucket r name quota cluster_id = do
    authorize s ctx "create" (target_of "bucket" "")
    or_invalid_name (validate_bucket_name name)
    quota_guard s ctx (pos 0)
    cid ← choose_cluster r cluster_id
    known_cluster cid
    failure ← gets (λ w. st.unreachable w.trail cid)
    or_no_cluster failure
    created ← ask (λ t. st.create_bucket t cid name) (create_on_backend cid name)
    garage_id ← or_storage created
    grant_system_key cid garage_id
    if is_limited quota && (st.capabilities cid).manages_quota
        then apply_quota cid garage_id quota
        else pure tt
    id ← record_bucket cid name garage_id quota
    audit s ctx "bucket.create" "bucket" id
        (some (("name", text name) ∷ ("cluster_id", text cid) ∷ []))
    emit s ctx "bucket.created" id 0
    get_bucket_dto id

  unfoldable pub delete_bucket : String → Exec Error (Unit {0})
  unfolding empty_bucket
  delete_bucket id = do
    authorize s ctx "delete" (target_of "bucket" id)
    b ← load_bucket s ctx id
    failure ← provider_for_bucket st b
    or_unreachable st failure
    empty_bucket st b.garage_global_alias
    refused ←
        ask (λ t. st.drop_bucket t b.cluster_id b.garage_bucket_id)
          (drop_on_backend b.cluster_id b.garage_bucket_id)
    or_storage_err refused
    mapped (soft_delete_bucket id)
    audit s ctx "bucket.delete" "bucket" id (some (("name", text b.name) ∷ []))
    emit s ctx "bucket.deleted" id 0

  unfoldable pub set_quota : String → QuotaDto → Exec Error BucketDto
  unfolding apply_quota get_bucket_dto
  set_quota id quota = do
    authorize s ctx "update" (target_of "bucket" id)
    b ← load_bucket s ctx id
    failure ← provider_for_bucket st b
    or_unreachable st failure
    if (st.capabilities b.cluster_id).manages_quota
        then apply_quota b.cluster_id b.garage_bucket_id quota
        else pure tt
    mapped (update_bucket_quota id quota.max_bytes quota.max_objects)
    audit s ctx "bucket.set_quota" "bucket" id none
    get_bucket_dto id

  unfoldable pub set_visibility : String → Bool → String → String → Exec Error BucketDto
  unfolding get_bucket_dto
  set_visibility id public index error_doc = do
    authorize s ctx "update" (target_of "bucket" id)
    b ← load_bucket s ctx id
    failure ← provider_for_bucket st b
    or_unreachable st failure
    if not (st.capabilities b.cluster_id).public_website then raise unsupported_err else pure tt
    refused ←
        ask (λ t. st.set_visibility t b.cluster_id b.garage_bucket_id public index error_doc)
          (set_backend_visibility b.cluster_id b.garage_bucket_id public index error_doc)
    or_storage_err refused
    let visibility = if public then "public_website" else "private"
    mapped (update_bucket_visibility id visibility public index error_doc)
    audit s ctx "bucket.set_visibility" "bucket" id (some (("public", flag public) ∷ []))
    get_bucket_dto id
