-- ===== src/Migrations.antt =====
-- The jobs that import a bucket from another S3 service (internal/service/migrations.go), as their
-- owners start, read and cancel them.
pub mod Store
pub mod Cancel
pub mod Worker
pub mod Counts
pub mod Completion
use buktio.Base.{
  ℕ, String, ◌<>◌, Bool, ◌||◌, Option, none, some, List, [], ◌∷◌, str_eq, if◌then◌else◌,
}
use buktio.Runtime.Rows.{MigrationJob}
use buktio.Runtime.World.{
  World, text, list_objects, RepoErr, failed, Result, Exec, ◌>>=◌, ◌>>◌, pure, raise, gets,
  call_out,
}
use buktio.Runtime.Errors.{Error, validation_err, map_repo_err, mapped}
use buktio.Runtime.Facade.{Services, Context, tenant}
use buktio.Audit.{audit}
use buktio.Guard.{scim_token_actor, load_bucket}
use buktio.Migrations.Store.{
  NewJob, create_migration_job, get_migration_job, list_migration_jobs, set_migration_status,
}

pub record MigrationInput : Type 0 where
  pub source_endpoint : String
  pub source_region : String
  pub source_bucket : String
  pub access_key_id : String
  pub secret_access_key : String
  pub dest_bucket_id : String

pub record MigrationJobDto : Type 0 where
  pub id : String
  pub source_bucket : String
  pub dest_bucket_id : String
  pub status : String
  pub copied_objects : ℕ
  pub copied_bytes : ℕ
  pub error : String

unfoldable pub migration_dto : MigrationJob → MigrationJobDto
migration_dto j = record {
  id = j.id;
  source_bucket = j.source_bucket;
  dest_bucket_id = j.dest_bucket_id;
  status = j.status;
  copied_objects = j.copied_objects;
  copied_bytes = j.copied_bytes;
  error = j.error;
}

abbrev pub migration_dtos : List MigrationJob → List MigrationJobDto
migration_dtos [] = []
migration_dtos (j ∷ js) = migration_dto j ∷ migration_dtos js

-- The source's client, which answers a listing with an error or not, and the sealer of secrets.
pub record Importer : Type 0 where
  pub unreadable : World → MigrationInput → Option String
  pub seal : World → String → Result String String

abbrev pub or_unreadable : Option String → Exec Error (Unit {0})
or_unreadable none = pure tt
or_unreadable (some msg) = raise (validation_err ("cannot read the source bucket: " <> msg))

abbrev pub or_unsealed : Result String String → Exec Error String
or_unsealed (Result.ok secret) = pure secret
or_unsealed (Result.err msg) = raise (map_repo_err (failed msg))

module _ (s : Services) (ctx : Context) where
  -- The job is started once the operation has returned it.
  unfoldable pub start_migration : Importer → MigrationInput → Exec Error MigrationJobDto
  start_migration imp input = do
    scim_token_actor ctx
    if str_eq input.source_endpoint ""
          || str_eq input.source_bucket ""
          || str_eq input.access_key_id ""
          || str_eq input.secret_access_key ""
        then raise (validation_err "source endpoint, bucket, access key and secret are required")
        else pure tt
    dest ← load_bucket s ctx input.dest_bucket_id
    let region = if str_eq input.source_region "" then "us-east-1" else input.source_region
    failure ← gets (λ w. imp.unreadable w (record input { source_region = region }))
    call_out (list_objects input.source_endpoint input.source_bucket)
    or_unreadable failure
    sealed ← gets (λ w. imp.seal w input.secret_access_key)
    secret ← or_unsealed sealed
    id ← mapped (
        create_migration_job s (record {
          org_id = (tenant s ctx).org_id;
          source_endpoint = input.source_endpoint;
          source_region = region;
          source_bucket = input.source_bucket;
          source_access_key = input.access_key_id;
          source_secret_enc = secret;
          dest_bucket_id = dest.id;
        }))
    audit s ctx "migration.start" "bucket" dest.id
        (some (("source", text input.source_bucket) ∷ []))
    pure (record {
      id = id;
      source_bucket = input.source_bucket;
      dest_bucket_id = dest.id;
      status = "pending";
      copied_objects = 0;
      copied_bytes = 0;
      error = "";
    })

  unfoldable pub get_migration : String → Exec Error MigrationJobDto
  unfolding migration_dto
  get_migration id = do
    j ← mapped (get_migration_job (tenant s ctx).org_id id)
    pure (migration_dto j)

  unfoldable pub list_migrations : Exec Error (List MigrationJobDto)
  unfolding migration_dto
  list_migrations = do
    rows ← mapped (list_migration_jobs (tenant s ctx).org_id)
    pure (migration_dtos rows)

  -- The last statement's error is returned as it is, which the handler maps as it maps any other.
  unfoldable pub cancel_migration : String → Exec Error (Unit {0})
  cancel_migration id = do
    scim_token_actor ctx
    _ ← mapped (get_migration_job (tenant s ctx).org_id id)
    mapped (set_migration_status id "canceled" "")
