-- ===== src/Storage.antt =====
-- The storage of a bucket, as the services see it (internal/storage/provider.go, the errors of
-- internal/service/errors.go). The backend is a parameter: it answers a call by what it was asked
-- before.
use buktio.Base.{ℕ, ◌==◌, String, ◌<>◌, ◌||◌, Bool, Option, none, some, List, str_eq, if◌then◌else◌}
use buktio.Base.Int.{ℤ}
use buktio.Runtime.Rows.{Bucket}
use buktio.Runtime.World.{
  Call, head_object, copy_object, delete_object, Result, Exec, ◌>>=◌, ◌>>◌, pure, raise, gets, ok?,
  call_out,
}
use buktio.Runtime.Errors.{
  Error, validation_err, not_found_err, conflict_err, storage_unavailable_err, unsupported_err,
}
use buktio.Runtime.Facade.{Services, Context}
use buktio.Guard.{load_bucket}
use buktio.Clusters.Registry.{Capabilities}

-- The errors that mapStorageErr tells apart: storage.ErrUnsupported, garage.AdminError,
-- smithy.APIError and any other.
pub data StorageErr : Type 0 where
  unsupported : StorageErr
  admin_error : ℕ → String → String → StorageErr
  api_error : String → String → String → StorageErr
  other : String → StorageErr

unfoldable pub map_storage_err : StorageErr → Error
map_storage_err unsupported = unsupported_err
map_storage_err (admin_error status body whole) =
    if status == 409
    then conflict_err "already exists"
    else if status == 404
    then not_found_err
    else if status == 400
    then validation_err body
    else storage_unavailable_err ("storage backend error: " <> whole)
map_storage_err (api_error code msg whole) =
    if str_eq code "NoSuchKey"
      || str_eq code "NoSuchBucket"
      || str_eq code "NoSuchCORSConfiguration"
      || str_eq code "NoSuchLifecycleConfiguration"
    then not_found_err
    else if str_eq code "AccessDenied"
    then record { code = "forbidden"; message = "access denied"; http = 403 }
    else if str_eq code "InvalidRequest"
        || str_eq code "InvalidArgument"
        || str_eq code "EntityTooLarge"
        || str_eq code "KeyTooLongError"
    then validation_err msg
    else storage_unavailable_err ("storage backend error: " <> whole)
map_storage_err (other msg) = storage_unavailable_err ("storage backend error: " <> msg)

-- storage.ListObjectsResult with the keys, sizes and prefix marks of its objects.
pub record Object : Type 0 where
  pub key : String
  pub size : ℕ
  pub is_prefix : Bool

pub record Page : Type 0 where
  pub objects : List Object
  pub common_prefixes : List String
  pub next_token : String
  pub is_truncated : Bool

-- A listing's prefix, delimiter, continuation token and greatest number of keys.
pub record ListInput : Type 0 where
  pub prefix : String
  pub delimiter : String
  pub token : String
  pub max_keys : ℕ

-- The clusters and their backends. `unreachable` is the error of the registry for a cluster.
pub record Storage : Type 0 where
  pub unreachable : List Call → String → Option String
  pub head : List Call → String → String → Result StorageErr ℕ
  pub copy : List Call → String → String → String → Option StorageErr
  pub delete : List Call → String → String → Option StorageErr
  pub delete_many : List Call → String → List String → Option StorageErr
  pub list : List Call → String → ListInput → Result StorageErr Page
  pub put : List Call → String → String → ℕ → Option StorageErr
  pub get : List Call → String → String → Result StorageErr Object
  pub presign : String → String → String → ℕ → Result StorageErr String
  -- By the cluster and the backend's id of a bucket.
  pub capabilities : String → Capabilities
  pub create_bucket : List Call → String → String → Result StorageErr String
  pub drop_bucket : List Call → String → String → Option StorageErr
  pub grant_key : List Call → String → String → String → List Bool → Option StorageErr
  pub revoke_key : List Call → String → String → String → Option StorageErr
  pub set_quota : List Call → String → String → Option ℤ → Option ℤ → Option StorageErr
  pub set_visibility : List Call → String → String → Bool → String → String → Option StorageErr
  pub usage : List Call → String → String → Result StorageErr (ℕ × ℕ)
  -- The keys of the primary cluster: the new key's id and secret.
  pub create_key : List Call → String → Bool → Result StorageErr (String × String)
  pub delete_key : List Call → String → Option StorageErr

-- An error of the backend ends the operation.
abbrev pub or_storage : {A : Type 0} → Result StorageErr A → Exec Error A
or_storage (Result.ok a) = pure a
or_storage (Result.err e) = raise (map_storage_err e)

-- A call that a backend answers by what it was asked before.
unfoldable pub ask : {E A : Type 0} → (List Call → A) → Call → Exec E A
ask f c = do answer ← gets (λ w. f w.trail); call_out c; pure answer

abbrev pub or_storage_err : Option StorageErr → Exec Error (Unit {0})
or_storage_err none = pure tt
or_storage_err (some e) = raise (map_storage_err e)

module _ (st : Storage) where
  unfoldable pub provider_for_bucket : {E : Type 0} → Bucket → Exec E (Option String)
  provider_for_bucket b = gets (λ w. st.unreachable w.trail b.cluster_id)

  -- The size of an object, where the backend tells it.
  unfoldable pub head_size : {E : Type 0} → String → String → Exec E (Option ℕ)
  head_size alias key = do
    answer ← gets (λ w. st.head w.trail alias key)
    call_out (head_object alias key)
    pure (ok? answer)

  unfoldable pub copy_to : {E : Type 0} → String → String → String → Exec E (Option StorageErr)
  copy_to alias src dst = do
    answer ← gets (λ w. st.copy w.trail alias src dst)
    call_out (copy_object alias src dst)
    pure answer

  unfoldable pub delete_key : {E : Type 0} → String → String → Exec E (Option StorageErr)
  delete_key alias key = do
    answer ← gets (λ w. st.delete w.trail alias key)
    call_out (delete_object alias key)
    pure answer

  abbrev pub or_unreachable : Option String → Exec Error (Unit {0})
  or_unreachable none = pure tt
  or_unreachable (some msg) =
      raise (storage_unavailable_err ("cannot reach the bucket's cluster: " <> msg))

  -- A bucket of the tenant whose cluster can be reached.
  unfoldable pub bucket_provider : Services → Context → String → Exec Error Bucket
  unfolding provider_for_bucket
  bucket_provider s ctx id = do
    b ← load_bucket s ctx id
    failure ← provider_for_bucket b
    or_unreachable failure
    pure b
