-- ===== src/Backups/Deletion.antt =====
-- A schedule that has run cannot be deleted (DeleteBackupSchedule of
-- internal/service/backup_scheduler.go).
use buktio.Base.{
  ◌≡◌, refl, String, Bool, true, Option, none, some, List, [], ◌∷◌, arith, str_eq, eq_refl, any,
  Bool-cases, inl, inr,
}
use buktio.Runtime.Rows.{BackupJob}
use buktio.Runtime.World.{World, RepoErr, failed, not_found, violation, ok, err}
use buktio.Runtime.Errors.{Error, forbidden_err, map_repo_err, actions}
use buktio.Runtime.Facade.{Services, Context, tenant, subject_from, target_of}
use buktio.Guard.{authorize, forbidden_msg}
use buktio.Backups.Store.{schedule_of, delete_schedule_row}
use buktio.Backups.Jobs.{insert_job, create_backup_job_for_schedule}
use buktio.Backups.{delete_backup_schedule}

abbrev pub refers_to : String → BackupJob → Bool
refers_to schedule j = str_eq j.schedule_id schedule

made_job :
    (s : Services) (org schedule job : String) (faults : List (Option String)) (w : World)
    → w.faults ≡ faults
    → (create_backup_job_for_schedule s org schedule w).0 ≡ ok job
    → any (refers_to schedule) (create_backup_job_for_schedule s org schedule w).1.db.backup_jobs
      ≡ true
unfolding create_backup_job_for_schedule insert_job actions
made_job s org schedule job [] w f h = elim (Bool-cases (str_eq schedule "")) [
  | inl e ↦ ground (arith, f, h, e, eq_refl schedule)
  | inr e ↦ ground (arith, f, h, e, eq_refl schedule)
]
made_job s org schedule job (none ∷ rest) w f h = ground (arith, f, h, eq_refl schedule)
made_job s org schedule job (some msg ∷ rest) w f h = ground (arith, f, h)

module _ (schedule org : String) where
  -- The rows of a statement that meets no fault.
  kept :
      (faults : List (Option String)) (w : World)
      → w.faults ≡ faults
      → any (refers_to schedule) w.db.backup_jobs ≡ true
      → (e : RepoErr) × ((delete_schedule_row schedule org w).0 ≡ err e)
        × ((delete_schedule_row schedule org w).1.db ≡ w.db)
  unfolding delete_schedule_row actions
  kept [] w f h = elim (Bool-cases (any (schedule_of schedule org) w.db.schedules)) [
    | inl b ↦ (violation, ground (arith, f, h, b), ground (arith, f, h, b))
    | inr b ↦ (not_found, ground (arith, f, h, b), ground (arith, f, h, b))
  ]
  kept (none ∷ rest) w f h = elim (Bool-cases (any (schedule_of schedule org) w.db.schedules)) [
    | inl b ↦ (violation, ground (arith, f, h, b), ground (arith, f, h, b))
    | inr b ↦ (not_found, ground (arith, f, h, b), ground (arith, f, h, b))
  ]
  kept (some msg ∷ rest) w f h = (failed msg, ground (arith, f), ground (arith, f))

refused :
    (s : Services) (ctx : Context) (schedule : String) (w : World) (e : RepoErr)
    → (delete_schedule_row schedule (tenant s ctx).org_id w).0 ≡ err e
    → (delete_schedule_row schedule (tenant s ctx).org_id w).1.db ≡ w.db
    → let done = delete_backup_schedule s ctx schedule w in
      (e : Error) × (done.0 ≡ err e) × (done.1.db ≡ w.db)
unfolding delete_backup_schedule authorize actions
refused s ctx schedule w e x y =
    let d = s.can (subject_from ctx).0 "delete" (target_of "backup" schedule) in
    elim (Bool-cases d.allowed) [
      | inl a ↦ (map_repo_err e, ground (arith, a, x), ground (arith, a, x, y))
      | inr a ↦ (forbidden_err (forbidden_msg d.reason), ground (arith, a), ground (arith, a))
    ]

-- Whatever statement fails: once the scheduler has made a job for a schedule, and as long as the
-- job's row is there, deleting the schedule returns an error and changes nothing in the database.
pub delete_backup_schedule-refused :
    (s : Services) (ctx : Context) (org schedule job : String) (w v : World)
    → (create_backup_job_for_schedule s org schedule w).0 ≡ ok job
    → v.db.backup_jobs ≡ (create_backup_job_for_schedule s org schedule w).1.db.backup_jobs
    → let done = delete_backup_schedule s ctx schedule v in
      (e : Error) × (done.0 ≡ err e) × (done.1.db ≡ v.db)
delete_backup_schedule-refused s ctx org schedule job w v made same =
    let there : any (refers_to schedule) v.db.backup_jobs ≡ true =
      rw same (made_job s org schedule job w.faults w refl made) in
    let (e, x, y) = kept schedule (tenant s ctx).org_id v.faults v refl there in
    refused s ctx schedule v e x y
