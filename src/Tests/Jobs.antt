-- ===== src/Tests/Jobs.antt =====
-- The theorems on schedules and migration jobs, applied.
use buktio.Base.{◌≡◌, refl, List, any, str_eq, String, true, none, some, [], ◌∷◌, arith, eq_iff}
use buktio.Base.Int.{pos}
use buktio.Runtime.Rows.{BackupSchedule, MigrationJob}
use buktio.Runtime.World.{World, ok}
use buktio.Runtime.Errors.{actions}
use buktio.Guard.{scim_token_actor}
use buktio.Runtime.Facade.{subject_from, tenant}
use buktio.Backups.{update_backup_schedule, delete_backup_schedule}
use buktio.Backups.Scope.{schedules_in, schedules_scoped}
use buktio.Migrations.{cancel_migration}
use buktio.Migrations.Store.{
  update_migration_progress, list_resumable_migration_job_ids, get_migration_job,
  set_migration_status,
}
use buktio.Migrations.Cancel.{
  status_of, cancel_migration-status_of, update_migration_progress-cancel_migration,
}
use buktio.Tests.{services, ctx, world, db}

abbrev schedule : String → String → BackupSchedule
schedule id org = record {
  id = id;
  org_id = org;
  enabled = true;
  interval_minutes = pos 60;
  retention_count = pos 7;
  offsite_enabled = true;
  next_run_at = 3;
  last_run_at = none;
}

abbrev job : MigrationJob
job = record {
  id = "m1";
  org_id = "acme";
  source_endpoint = "https://s3.test";
  source_region = "us-east-1";
  source_bucket = "old";
  source_access_key = "AK";
  source_secret_enc = "sealed";
  dest_bucket_id = "b1";
  status = "running";
  copied_objects = 1;
  copied_bytes = 10;
  cursor = "c";
  error = "";
}

abbrev busy : World
busy = record world {
  db = record db {
    schedules = schedule "s1" "acme" ∷ schedule "s2" "globex" ∷ [];
    migrations = job ∷ [];
  };
}

schedules_scoped_example :
    (schedules_in "globex"
        (update_backup_schedule services ctx "s2" true (pos 1) (pos 1) true busy).1.db.schedules
      ≡ schedule "s2" "globex" ∷ [])
    × (schedules_in "globex" (delete_backup_schedule services ctx "s2" busy).1.db.schedules
        ≡ schedule "s2" "globex" ∷ [])
unfolding tenant
schedules_scoped_example =
    schedules_scoped services ctx "s2" true (pos 1) (pos 1) true "globex" busy
      (λ e. ground (arith, (eq_iff "globex" "acme").1 e))

cancel_migration-status_of_example :
    ((cancel_migration services ctx "m1" busy).0 ≡ ok tt)
    × (status_of "m1" (cancel_migration services ctx "m1" busy).1.db.migrations ≡ some "canceled")
unfolding tenant subject_from
cancel_migration-status_of_example =
    cancel_migration-status_of services ctx "m1" job busy "m1" refl refl refl

-- The jobs after the cancellation and the progress.
abbrev afterwards : World
afterwards = (update_migration_progress "m1" "d" 2 20 (cancel_migration services ctx "m1" busy).1).1

update_migration_progress-cancel_migration_example :
    (status_of "m1" (cancel_migration services ctx "m1" busy).1.db.migrations ≡ some "canceled")
    × (status_of "m1" afterwards.db.migrations ≡ some "running")
    × ((ids : List String) × ((list_resumable_migration_job_ids afterwards).0 ≡ ok ids)
        × (any (λ i. str_eq i "m1") ids ≡ true))
unfolding tenant subject_from cancel_migration scim_token_actor get_migration_job
    set_migration_status update_migration_progress actions
update_migration_progress-cancel_migration_example =
    update_migration_progress-cancel_migration services ctx "m1" "d" 2 20 job busy afterwards refl
      refl refl refl refl
