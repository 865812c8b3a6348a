-- ===== src/Backups/Runs.antt =====
-- The runs of backups (internal/service/backups.go, and runDueBackups, offsiteCopy and pruneBackups
-- of backup_scheduler.go). A run that is started in the background is an action of its own.
use buktio.Base.{
  ℕ, zero, suc, String, ◌<>◌, Bool, not, ◌||◌, Option, none, some, List, [], ◌∷◌, str_eq,
  if◌then◌else◌,
}
use buktio.Base.Int.{ℤ, pos, negsuc}
use buktio.Runtime.Rows.{BackupJob, BackupSchedule}
use buktio.Runtime.World.{
  Call, Exec, ◌>>=◌, ◌>>◌, pure, raise, gets, attempt, ignore, call_out, run_dump, remove_file,
  upload_file,
}
use buktio.Runtime.Errors.{Error, not_found_err, mapped}
use buktio.Runtime.Facade.{Services, Context, tenant, target_of}
use buktio.Audit.{audit}
use buktio.Guard.{authorize}
use buktio.Storage.{ask}
use buktio.Backups.Store.{due_schedules, mark_schedule_ran}
use buktio.Backups.Jobs.{
  create_backup_job, create_backup_job_for_schedule, mark_backup_running, finish_backup_job,
  set_backup_offsite_uri, get_backup_job, list_backup_jobs, succeeded_backup_paths_beyond,
}

-- Go's os, os/exec, path/filepath and time, pgconn, SQLite's VACUUM INTO, and the target of the
-- copies: the error, if there is one.
pub record Machine : Type 0 where
  pub make_dir : List Call → String → Option String
  -- The time of a number of nanoseconds, to the second.
  pub timestamp : ℕ → String
  pub join_path : String → String → String
  pub base_of : String → String
  pub parse_url : String → Option String
  pub pg_dump : List Call → String → Option String
  pub vacuum_into : List Call → String → Option String
  -- os.Stat and os.Open
  pub size_of : List Call → String → Option ℕ
  pub can_open : List Call → String → Bool
  pub upload : List Call → String → String → Option String

-- BackupDTO
pub record BackupDto : Type 0 where
  pub id : String
  pub kind : String
  pub status : String
  pub path : String
  pub size_bytes : ℕ
  pub error : String
  pub created_at : ℕ
  pub finished_at : Option ℕ

abbrev pub backup_to_dto : BackupJob → BackupDto
backup_to_dto j = record {
  id = j.id;
  kind = j.kind;
  status = j.status;
  path = j.path;
  size_bytes = j.size_bytes;
  error = j.error;
  created_at = j.created_at;
  finished_at = j.finished_at;
}

abbrev pub backups_to_dtos : List BackupJob → List BackupDto
backups_to_dtos [] = []
backups_to_dtos (j ∷ js) = backup_to_dto j ∷ backups_to_dtos js

abbrev pub backup_unavailable : Error
backup_unavailable = record {
  code = "backup_unavailable";
  message = "backups are not configured on this deployment";
  http = 503;
}

-- At least one backup is kept.
abbrev pub kept_of : ℤ → ℕ
kept_of (pos zero) = 1
kept_of (pos (suc n)) = suc n
kept_of (negsuc n) = 1

module _ (s : Services) (m : Machine) where
  abbrev pub failed_with : String → String → Exec String (Unit {0})
  failed_with id msg = ignore (finish_backup_job id "failed" "" 0 msg)

  abbrev pub succeeded_at : String → String → Exec String (Unit {0})
  succeeded_at id path = do
    size ← gets (λ w. m.size_of w.trail path)
    ignore (finish_backup_job id "succeeded" path (elim size [ none ↦ 0 | some n ↦ n ]) "")

  unfoldable pub dump_sqlite : String → String → Exec String (Unit {0})
  dump_sqlite id path = do
    refused ← ask (λ t. m.vacuum_into t path) (run_dump path)
    elim refused [
      | some msg ↦ failed_with id ("vacuum into: " <> msg)
      | none ↦ succeeded_at id path
    ]

  unfoldable pub dump_postgres : String → String → Exec String (Unit {0})
  dump_postgres id path = elim (m.parse_url s.database_url) [
    | some msg ↦ failed_with id ("parse database url: " <> msg)
    | none ↦ (do
      refused ← ask (λ t. m.pg_dump t path) (run_dump path)
      elim refused [ some msg ↦ failed_with id ("pg_dump: " <> msg) | none ↦ succeeded_at id path ])
  ]

  -- The name of a file tells the second at which its dump begins.
  abbrev pub dump_path : ℕ → String
  dump_path now =
      m.join_path s.backup_dir
        ("buktio-metadata-" <> m.timestamp now <> (if s.is_sqlite then ".sqlite" else ".dump"))

  unfoldable pub run_backup : String → Exec String (Unit {0})
  unfolding dump_sqlite dump_postgres
  run_backup id = do
    ignore (mark_backup_running id)
    refused ← gets (λ w. m.make_dir w.trail s.backup_dir)
    now ← gets (λ w. w.now)
    elim refused [
      | some msg ↦ failed_with id ("create backup dir: " <> msg)
      | none ↦
          (if s.is_sqlite then dump_sqlite id (dump_path now) else dump_postgres id (dump_path now))
    ]

  unfoldable pub upload_backup : BackupJob → Exec String (Unit {0})
  upload_backup j = do
    readable ← gets (λ w. m.can_open w.trail j.path)
    if not readable then pure tt else do
      refused ← ask (λ t. m.upload t s.offsite_bucket (m.base_of j.path)) (upload_file j.path)
      elim refused [
        | some msg ↦ pure tt
        | none ↦
            ignore
              (set_backup_offsite_uri j.id ("s3://" <> s.offsite_bucket <> "/" <> m.base_of j.path))
      ]

  -- A backup that succeeded is copied, where a target is configured.
  unfoldable pub offsite_copy : String → Exec String (Unit {0})
  unfolding upload_backup
  offsite_copy id =
      if str_eq s.offsite_bucket "" || str_eq s.offsite_access_key "" || str_eq s.offsite_secret ""
      then pure tt
      else do
        job ← attempt (get_backup_job id)
        elim job [
          | none ↦ pure tt
          | some j ↦
              (if not (str_eq j.status "succeeded") || str_eq j.path ""
                then pure tt
                else upload_backup j)
        ]

  unfoldable pub remove_files : List String → Exec String (Unit {0})
  remove_files [] = pure tt
  remove_files (path ∷ paths) = do call_out (remove_file path); remove_files paths

  unfoldable pub prune_backups : String → ℤ → Exec String (Unit {0})
  unfolding remove_files
  prune_backups org keep = do
    paths ← attempt (succeeded_backup_paths_beyond org (kept_of keep))
    elim paths [ none ↦ pure tt | some ps ↦ remove_files ps ]

  unfoldable pub run_schedules : List BackupSchedule → Exec String (Unit {0})
  unfolding run_backup offsite_copy prune_backups
  run_schedules [] = pure tt
  run_schedules (r ∷ rs) = do
    job ← attempt (create_backup_job_for_schedule s r.org_id r.id)
    elim job [
      | none ↦ pure tt
      | some id ↦ (do
        run_backup id
        if r.offsite_enabled then offsite_copy id else pure tt
        ignore (mark_schedule_ran r.id r.interval_minutes)
        prune_backups r.org_id r.retention_count)
    ]
    run_schedules rs

  unfoldable pub run_due_backups : Exec String (Unit {0})
  unfolding run_schedules
  run_due_backups =
      if str_eq s.database_url "" || str_eq s.backup_dir ""
      then pure tt
      else do due ← attempt due_schedules; elim due [ none ↦ pure tt | some rs ↦ run_schedules rs ]

module _ (s : Services) (ctx : Context) where
  -- The backup of another organisation is not found.
  unfoldable pub get_backup : String → Exec Error BackupDto
  get_backup id = do
    j ← mapped (get_backup_job id)
    if not (str_eq j.org_id (tenant s ctx).org_id)
        then raise not_found_err
        else pure (backup_to_dto j)

  unfoldable pub list_backups : ℤ → Exec Error (List BackupDto)
  list_backups limit = do
    rows ← mapped (list_backup_jobs (tenant s ctx).org_id limit)
    pure (backups_to_dtos rows)

  unfoldable pub create_backup : Exec Error BackupDto
  unfolding get_backup
  create_backup = do
    authorize s ctx "create" (target_of "backup" "")
    if str_eq s.database_url "" || str_eq s.backup_dir "" then raise backup_unavailable else pure tt
    id ← mapped (create_backup_job s (tenant s ctx).org_id "metadata")
    audit s ctx "backup.start" "backup" id none
    get_backup id
