-- ===== src/Tests/Backups.antt =====
-- The theorems on the runs of backups, applied.
use buktio.Base.{◌≡◌, refl, ◌<>◌, true, none, some, [], ◌∷◌, find}
use buktio.Base.Int.{pos}
use buktio.Runtime.Rows.{BackupSchedule, BackupJob}
use buktio.Runtime.World.{World, err}
use buktio.Runtime.Errors.{Error, actions}
use buktio.Backups.{delete_backup_schedule}
use buktio.Backups.Jobs.{job_with, insert_job, create_backup_job_for_schedule}
use buktio.Backups.Runs.{Machine, run_backup}
use buktio.Backups.Finish.{is_over, run_backup-finishes}
use buktio.Backups.Deletion.{delete_backup_schedule-refused}
use buktio.Tests.{services, ctx, world, db}

abbrev machine : Machine
machine = record {
  make_dir = λ trail dir. none;
  timestamp = λ now. "20260101-000000";
  join_path = λ dir name. dir <> "/" <> name;
  base_of = λ path. path;
  parse_url = λ url. none;
  pg_dump = λ trail path. some "exit status 1";
  vacuum_into = λ trail path. none;
  size_of = λ trail path. some 512;
  can_open = λ trail path. true;
  upload = λ trail bucket key. none;
}

abbrev nightly : BackupSchedule
nightly = record {
  id = "s1";
  org_id = "acme";
  enabled = true;
  interval_minutes = pos 60;
  retention_count = pos 7;
  offsite_enabled = true;
  next_run_at = 3;
  last_run_at = none;
}

abbrev pending : BackupJob
pending = record {
  id = "j1";
  org_id = "acme";
  schedule_id = "s1";
  kind = "metadata";
  status = "pending";
  path = "";
  size_bytes = 0;
  error = "";
  offsite_uri = "";
  created_at = 1;
  finished_at = none;
}

abbrev scheduled : World
scheduled = record world { db = record db { schedules = nightly ∷ []; backup_jobs = pending ∷ [] } }

run_backup-finishes_example :
    (k : BackupJob) × (find
        (job_with "j1")
        (run_backup services machine "j1" scheduled).1.db.backup_jobs
      ≡ some k)
    × (is_over k.status ≡ true)
    × (k.finished_at ≡ some scheduled.now)
run_backup-finishes_example = run_backup-finishes services machine "j1" scheduled pending refl refl

abbrev ran : World
ran = (create_backup_job_for_schedule services "acme" "s1" scheduled).1

delete_backup_schedule-refused_example :
    (e : Error) × ((delete_backup_schedule services ctx "s1" ran).0 ≡ err e)
    × ((delete_backup_schedule services ctx "s1" ran).1.db ≡ ran.db)
unfolding create_backup_job_for_schedule insert_job actions
delete_backup_schedule-refused_example =
    delete_backup_schedule-refused services ctx "acme" "s1" "new" scheduled ran refl refl
