-- ===== src/Keys.antt =====
-- Access keys and their grants on buckets (internal/service/keys.go, loadKey of guard.go and the
-- DTOs of service.go). The keys live on the primary cluster.
pub mod Store
use Prim.Native.String.{len}
use buktio.Base.{
  ℕ, String, Bool, true, false, not, Option, none, some, List, [], ◌∷◌, leb, str_eq, if◌then◌else◌,
}
use buktio.Runtime.Rows.{AccessKey, GrantRow}
use buktio.Runtime.World.{
  text, RepoErr, Exec, ◌>>=◌, ◌>>◌, pure, raise, attempt, or_zero, create_backend_key,
  delete_backend_key, grant_on_backend, revoke_on_backend,
}
use buktio.Runtime.Errors.{Error, not_found_err, unsupported_err, mapped}
use buktio.Runtime.Facade.{Services, Context, tenant, target_of}
use buktio.Audit.{audit}
use buktio.Guard.{authorize}
use buktio.Validate.{validate_key_name}
use buktio.Metering.{emit}
use buktio.Storage.{Storage, ask, or_storage, or_storage_err, bucket_provider}
use buktio.Buckets.{or_invalid_name}
use buktio.Keys.Store.{
  insert_access_key, access_key_rows, access_key_row, soft_delete_access_key, upsert_grant,
  delete_grant, list_grants_for_key,
}

pub record GrantInput : Type 0 where
  pub bucket_id : String
  pub read : Bool
  pub write : Bool
  pub owner : Bool

pub record GrantDto : Type 0 where
  pub bucket_id : String
  pub bucket_name : String
  pub read : Bool
  pub write : Bool
  pub owner : Bool

pub record KeyDto : Type 0 where
  pub id : String
  pub name : String
  pub access_key_id : String
  pub can_create_bucket : Bool
  pub secret_last_four : String
  pub grants : List GrantDto
  pub created_at : ℕ

abbrev pub grant_dtos : List (GrantRow × String) → List GrantDto
grant_dtos [] = []
grant_dtos ((g, name) ∷ gs) =
    record {
      bucket_id = g.bucket_id;
      bucket_name = name;
      read = g.can_read;
      write = g.can_write;
      owner = g.is_owner;
    }
    ∷ grant_dtos gs

abbrev pub key_to_dto : AccessKey → List GrantDto → KeyDto
key_to_dto k grants = record {
  id = k.id;
  name = k.name;
  access_key_id = k.garage_access_key_id;
  can_create_bucket = k.can_create_bucket;
  secret_last_four = k.secret_last_four;
  grants = grants;
  created_at = k.created_at;
}

-- lastFour
unfoldable pub last_four_of : Services → String → String
last_four_of s secret = if leb (len secret) 4 then secret else s.lib.last_four secret

unfoldable pub key_grants : String → Exec RepoErr (List GrantDto)
key_grants key = do rows ← list_grants_for_key key; pure (grant_dtos rows)

module _ (s : Services) (ctx : Context) where
  -- A key of another project is not found.
  unfoldable pub load_key : String → Exec Error AccessKey
  load_key id = do
    k ← mapped (access_key_row id)
    if not (str_eq k.project_id (tenant s ctx).project_id) then raise not_found_err else pure k

  -- A key with its grants; grants that cannot be read count as none.
  unfoldable pub with_grants : AccessKey → Exec Error KeyDto
  unfolding key_grants
  with_grants k = do grants ← or_zero [] (key_grants k.id); pure (key_to_dto k grants)

  unfoldable pub keys_with_grants : List AccessKey → Exec Error (List KeyDto)
  unfolding with_grants
  keys_with_grants [] = pure []
  keys_with_grants (k ∷ ks) = do dto ← with_grants k; rest ← keys_with_grants ks; pure (dto ∷ rest)

  unfoldable pub list_access_keys : Exec Error (List KeyDto)
  unfolding keys_with_grants
  list_access_keys = do
    rows ← mapped (access_key_rows (tenant s ctx).project_id)
    keys_with_grants rows

  unfoldable pub get_access_key : String → Exec Error KeyDto
  unfolding load_key with_grants
  get_access_key id = do k ← load_key id; with_grants k

  abbrev pub new_key : String → String → String → Bool → AccessKey
  new_key name garage_id secret can_create_bucket = record {
    id = "";
    org_id = (tenant s ctx).org_id;
    project_id = (tenant s ctx).project_id;
    cluster_id = s.cluster_id;
    name = name;
    garage_access_key_id = garage_id;
    secret_hash = "";
    secret_last_four = last_four_of s secret;
    can_create_bucket = can_create_bucket;
    created_at = 0;
    deleted = false;
  }

  module _ (st : Storage) where
    -- One grant, on the bucket's cluster and in its table.
    unfoldable pub grant : String → String → GrantInput → Exec Error (Unit {0})
    grant key garage_key g = do
      let perms = g.read ∷ g.write ∷ g.owner ∷ []
      b ← bucket_provider st s ctx g.bucket_id
      if not (st.capabilities b.cluster_id).manages_keys then raise unsupported_err else pure tt
      refused ←
          ask (λ t. st.grant_key t b.cluster_id b.garage_bucket_id garage_key perms)
            (grant_on_backend b.cluster_id b.garage_bucket_id garage_key perms)
      or_storage_err refused
      mapped (
          upsert_grant (record {
            bucket_id = g.bucket_id;
            access_key_id = key;
            can_read = g.read;
            can_write = g.write;
            is_owner = g.owner;
            deleted = false;
          }))

    unfoldable pub grant_each : String → String → List GrantInput → Exec Error (Unit {0})
    unfolding grant
    grant_each key garage_key [] = pure tt
    grant_each key garage_key (g ∷ gs) = do grant key garage_key g; grant_each key garage_key gs

    -- The new key's DTO and its secret.
    unfoldable pub create_access_key :
        String → Bool → List GrantInput → Exec Error (KeyDto × String)
    unfolding grant_each with_grants
    create_access_key name can_create_bucket grants = do
      authorize s ctx "create" (target_of "access_key" "")
      or_invalid_name (validate_key_name name)
      created ←
          ask (λ t. st.create_key t name can_create_bucket)
            (create_backend_key name can_create_bucket)
      credential ← or_storage created
      let row = new_key name credential.0 credential.1 can_create_bucket
      id ← mapped (insert_access_key s row (s.lib.sha256 credential.1))
      grant_each id credential.0 grants
      audit s ctx "access_key.create" "access_key" id (some (("name", text name) ∷ []))
      emit s ctx "key.created" id 0
      stored ← attempt (access_key_row id)
      let now : ℕ = elim stored [ none ↦ 0 | some k ↦ k.created_at ]
      dto ← with_grants (record row { id = id; created_at = now })
      pure (dto, credential.1)

    unfoldable pub delete_access_key : String → Exec Error (Unit {0})
    unfolding load_key
    delete_access_key id = do
      authorize s ctx "delete" (target_of "access_key" id)
      k ← load_key id
      refused ←
          ask (λ t. st.delete_key t k.garage_access_key_id)
            (delete_backend_key k.garage_access_key_id)
      or_storage_err refused
      mapped (soft_delete_access_key id)
      audit s ctx "access_key.delete" "access_key" id (some (("name", text k.name) ∷ []))
      emit s ctx "key.revoked" id 0

    unfoldable pub grant_bucket : String → GrantInput → Exec Error (Unit {0})
    unfolding load_key grant
    grant_bucket id g = do
      authorize s ctx "update" (target_of "access_key" id)
      k ← load_key id
      grant id k.garage_access_key_id g
      audit s ctx "access_key.grant" "access_key" id (some (("bucket_id", text g.bucket_id) ∷ []))

    unfoldable pub revoke_bucket : String → String → Exec Error (Unit {0})
    unfolding load_key
    revoke_bucket id bucket = do
      authorize s ctx "update" (target_of "access_key" id)
      k ← load_key id
      b ← bucket_provider st s ctx bucket
      if not (st.capabilities b.cluster_id).manages_keys then raise unsupported_err else pure tt
      refused ←
          ask (λ t. st.revoke_key t b.cluster_id b.garage_bucket_id k.garage_access_key_id)
            (revoke_on_backend b.cluster_id b.garage_bucket_id k.garage_access_key_id)
      or_storage_err refused
      mapped (delete_grant bucket id)
      audit s ctx "access_key.revoke" "access_key" id (some (("bucket_id", text bucket) ∷ []))
