-- ===== src/Backups/Jobs.antt =====
-- The statements on backup jobs (internal/repository/backups.go, and those of backup_schedules.go
-- on jobs). An empty id of an organisation is no uuid, so a statement that compares with it fails.
use buktio.Base.{
  ℕ, suc, zero, String, Bool, not, ◌&&◌, none, some, List, [], ◌∷◌, str_eq, leb, select, find, any,
  update_where, take, drop, if◌then◌else◌,
}
use buktio.Base.Int.{ℤ, pos, negsuc}
use buktio.Runtime.Rows.{Organization, BackupJob, BackupSchedule}
use buktio.Runtime.World.{
  RepoErr, violation, Exec, ◌>>=◌, ◌>>◌, pure, raise, gets, statement, wrapped, put_db, draw,
}
use buktio.Runtime.Facade.{Services}
use buktio.Guard.{row_or_not_found}

abbrev pub job_with : String → BackupJob → Bool
job_with id j = str_eq j.id id

-- An organisation that is named has a row.
unfoldable pub insert_job : Services → String → String → String → Exec RepoErr String
insert_job s org kind schedule w =
    (if not (str_eq org "") && not (any (λ (o : Organization). str_eq o.id org) w.db.organizations)
        then raise violation
        else do
          n ← draw
          let id = s.lib.new_uuid n
          put_db (record w.db {
            backup_jobs =
                record {
                  id = id;
                  org_id = org;
                  schedule_id = schedule;
                  kind = kind;
                  status = "pending";
                  path = "";
                  size_bytes = 0;
                  error = "";
                  offsite_uri = "";
                  created_at = w.now;
                  finished_at = none;
                }
                ∷ w.db.backup_jobs;
          })
          pure id)
      w

unfoldable pub create_backup_job : Services → String → String → Exec RepoErr String
unfolding insert_job
create_backup_job s org kind =
    wrapped "repository: create backup job: " (statement (insert_job s org kind ""))

-- The job refers to a schedule.
unfoldable pub create_backup_job_for_schedule : Services → String → String → Exec RepoErr String
unfolding insert_job
create_backup_job_for_schedule s org schedule =
    wrapped "repository: create scheduled backup job: " (
      statement (λ w.
        (if not (str_eq schedule "")
              && not (any (λ (r : BackupSchedule). str_eq r.id schedule) w.db.schedules)
            then raise violation
            else insert_job s org "metadata" schedule)
          w))

abbrev update_job : String → (ℕ → BackupJob → BackupJob) → Exec RepoErr (Unit {0})
update_job id f = statement (λ w.
    put_db (record w.db { backup_jobs = update_where (job_with id) (f w.now) w.db.backup_jobs }) w)

unfoldable pub mark_backup_running : String → Exec RepoErr (Unit {0})
mark_backup_running id = update_job id (λ now j. record j { status = "running" })

unfoldable pub finish_backup_job : String → String → String → ℕ → String → Exec RepoErr (Unit {0})
finish_backup_job id status path size msg = wrapped "repository: finish backup job: " (
    update_job id (λ now j. record j {
      status = status;
      path = path;
      size_bytes = size;
      error = msg;
      finished_at = some now;
    }))

unfoldable pub set_backup_offsite_uri : String → String → Exec RepoErr (Unit {0})
set_backup_offsite_uri id uri = update_job id (λ now j. record j { offsite_uri = uri })

unfoldable pub get_backup_job : String → Exec RepoErr BackupJob
get_backup_job id =
    wrapped "repository: get backup job: "
      (statement (λ w. row_or_not_found (find (job_with id) w.db.backup_jobs) w))

-- Fifty rows where the limit is not from 1 to 200.
abbrev pub limit_of : ℤ → ℕ
limit_of (pos zero) = 50
limit_of (pos (suc n)) = if leb (suc n) 200 then suc n else 50
limit_of (negsuc n) = 50

unfoldable pub list_backup_jobs : String → ℤ → Exec RepoErr (List BackupJob)
list_backup_jobs org limit = wrapped "repository: list backup jobs: " (
    statement (
      if str_eq org ""
      then raise violation
      else gets (λ w.
        take (limit_of limit) (select (λ (j : BackupJob). str_eq j.org_id org) w.db.backup_jobs))))

abbrev pub paths_of : List BackupJob → List String
paths_of [] = []
paths_of (j ∷ js) = j.path ∷ paths_of js

-- The newest jobs stand in front.
unfoldable pub succeeded_backup_paths_beyond : String → ℕ → Exec RepoErr (List String)
succeeded_backup_paths_beyond org keep = wrapped "repository: prune list: " (
    statement (
      if str_eq org ""
      then raise violation
      else gets (λ w. drop keep (
          paths_of (
            select
              (λ (j : BackupJob).
                str_eq j.org_id org && str_eq j.status "succeeded" && not (str_eq j.path ""))
              w.db.backup_jobs)))))
