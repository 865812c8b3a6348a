-- ===== src/Migrations/Store.antt =====
-- The statements on migration jobs (internal/repository/migrations_repo.go).
use buktio.Base.{
  ℕ, String, Bool, not, ◌&&◌, ◌||◌, List, [], ◌∷◌, str_eq, select, find, any, take, update_where,
  if◌then◌else◌,
}
use buktio.Runtime.Rows.{Bucket, MigrationJob}
use buktio.Runtime.World.{
  RepoErr, violation, Exec, ◌>>=◌, ◌>>◌, pure, raise, gets, statement, wrapped, put_db, draw,
}
use buktio.Runtime.Facade.{Services}
use buktio.Guard.{row_or_not_found}

abbrev pub job_with_id : String → MigrationJob → Bool
job_with_id id j = str_eq j.id id

-- `WHERE id=$1::uuid AND org_id=$2::uuid`
abbrev pub job_of : String → String → MigrationJob → Bool
job_of id org j = str_eq j.id id && str_eq j.org_id org

-- What a caller gives of a new job.
pub record NewJob : Type 0 where
  pub org_id : String
  pub source_endpoint : String
  pub source_region : String
  pub source_bucket : String
  pub source_access_key : String
  pub source_secret_enc : String
  pub dest_bucket_id : String

-- The organisation and the bucket have rows; a new job is pending and has copied nothing.
unfoldable pub create_migration_job : Services → NewJob → Exec RepoErr String
create_migration_job s j = wrapped "repository: create migration job: " (
    statement (λ w.
      (if not (any (λ o. str_eq o.id j.org_id) w.db.organizations)
            || not (any (λ (b : Bucket). str_eq b.id j.dest_bucket_id) w.db.buckets)
          then raise violation
          else do
            n ← draw
            let id = s.lib.new_uuid n
            put_db (record w.db {
              migrations =
                  record {
                    id = id;
                    org_id = j.org_id;
                    source_endpoint = j.source_endpoint;
                    source_region = j.source_region;
                    source_bucket = j.source_bucket;
                    source_access_key = j.source_access_key;
                    source_secret_enc = j.source_secret_enc;
                    dest_bucket_id = j.dest_bucket_id;
                    status = "pending";
                    copied_objects = 0;
                    copied_bytes = 0;
                    cursor = "";
                    error = "";
                  }
                  ∷ w.db.migrations;
            })
            pure id)
        w))

unfoldable pub get_migration_job : String → String → Exec RepoErr MigrationJob
get_migration_job org id =
    wrapped "repository: get migration job: "
      (statement (λ w. row_or_not_found (find (job_of id org) w.db.migrations) w))

unfoldable pub get_migration_job_by_id : String → Exec RepoErr MigrationJob
get_migration_job_by_id id =
    wrapped "repository: get migration job: "
      (statement (λ w. row_or_not_found (find (job_with_id id) w.db.migrations) w))

-- The newest hundred.
unfoldable pub list_migration_jobs : String → Exec RepoErr (List MigrationJob)
list_migration_jobs org = wrapped "repository: list migration jobs: " (
    statement
      (gets (λ w. take 100 (select (λ (j : MigrationJob). str_eq j.org_id org) w.db.migrations))))

-- `status IN ('pending','running')`
abbrev pub is_resumable : MigrationJob → Bool
is_resumable j = str_eq j.status "pending" || str_eq j.status "running"

abbrev pub job_ids : List MigrationJob → List String
job_ids [] = []
job_ids (j ∷ js) = j.id ∷ job_ids js

unfoldable pub list_resumable_migration_job_ids : Exec RepoErr (List String)
list_resumable_migration_job_ids =
    wrapped "repository: list resumable migrations: "
      (statement (gets (λ w. job_ids (select is_resumable w.db.migrations))))

-- The status is 'running' afterwards, whatever it was.
unfoldable pub update_migration_progress : String → String → ℕ → ℕ → Exec RepoErr (Unit {0})
update_migration_progress id cursor objects bytes = statement (λ w.
    put_db
      (record w.db {
        migrations =
            update_where (job_with_id id)
              (λ j. record j {
                cursor = cursor;
                copied_objects = objects;
                copied_bytes = bytes;
                status = "running";
              })
              w.db.migrations;
      })
      w)

unfoldable pub set_migration_status : String → String → String → Exec RepoErr (Unit {0})
set_migration_status id status msg = statement (λ w.
    put_db
      (record w.db {
        migrations =
            update_where (job_with_id id) (λ j. record j { status = status; error = msg })
              w.db.migrations;
      })
      w)
