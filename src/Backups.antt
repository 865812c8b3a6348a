-- ===== src/Backups.antt =====
-- The schedules of backups (internal/service/backup_scheduler.go).
pub mod Store
pub mod Scope
pub mod Jobs
pub mod Runs
pub mod Finish
pub mod Deletion
use buktio.Base.{
  ℕ, String, Bool, not, Option, none, some, List, [], ◌∷◌, str_eq, find, if◌then◌else◌,
}
use buktio.Base.Int.{ℤ, pos, ltb_ℤ}
use buktio.Runtime.Rows.{BackupSchedule}
use buktio.Runtime.World.{World, Exec, ◌>>=◌, ◌>>◌, pure, raise}
use buktio.Runtime.Errors.{Error, not_found_err, mapped}
use buktio.Runtime.Facade.{Services, Context, tenant, target_of}
use buktio.Audit.{audit}
use buktio.Guard.{authorize}
use buktio.Backups.Store.{
  create_schedule_row, schedule_rows, update_schedule_row, delete_schedule_row,
}

pub record ScheduleDto : Type 0 where
  pub id : String
  pub enabled : Bool
  pub interval_minutes : ℤ
  pub retention_count : ℤ
  pub offsite_enabled : Bool
  pub next_run_at : ℕ
  pub last_run_at : Option ℕ

unfoldable pub schedule_to_dto : BackupSchedule → ScheduleDto
schedule_to_dto r = record {
  id = r.id;
  enabled = r.enabled;
  interval_minutes = r.interval_minutes;
  retention_count = r.retention_count;
  offsite_enabled = r.offsite_enabled;
  next_run_at = r.next_run_at;
  last_run_at = r.last_run_at;
}

abbrev pub schedules_to_dtos : List BackupSchedule → List ScheduleDto
schedules_to_dtos [] = []
schedules_to_dtos (r ∷ rs) = schedule_to_dto r ∷ schedules_to_dtos rs

-- An interval is at least five minutes.
abbrev pub clamp_interval : ℤ → ℤ
clamp_interval n = if ltb_ℤ n (pos 5) then pos 5 else n

-- A retention below one is seven.
abbrev pub clamp_retention : ℤ → ℤ
clamp_retention n = if ltb_ℤ n (pos 1) then pos 7 else n

abbrev pub not_entitled : Error
not_entitled = record {
  code = "not_entitled";
  message = "scheduled backups are not in your plan";
  http = 402;
}

module _ (s : Services) (ctx : Context) where
  unfoldable pub schedule_by_id : String → Exec Error ScheduleDto
  unfolding schedule_to_dto
  schedule_by_id id = do
    rows ← mapped (schedule_rows (tenant s ctx).org_id)
    elim (find (λ (r : BackupSchedule). str_eq r.id id) rows) [
      | none ↦ raise not_found_err
      | some r ↦ pure (schedule_to_dto r)
    ]

  unfoldable pub create_backup_schedule : ℤ → ℤ → Bool → Exec Error ScheduleDto
  create_backup_schedule interval retention offsite = do
    authorize s ctx "create" (target_of "backup" "")
    let org = (tenant s ctx).org_id
    if not (s.allowed "scheduled_backups" org) then raise not_entitled else pure tt
    id ←
        mapped
          (create_schedule_row s org (clamp_interval interval) (clamp_retention retention) offsite)
    audit s ctx "backup.schedule.create" "backup_schedule" id none
    schedule_by_id id

  unfoldable pub list_backup_schedules : Exec Error (List ScheduleDto)
  unfolding schedule_to_dto
  list_backup_schedules = do
    authorize s ctx "read" (target_of "backup" "")
    rows ← mapped (schedule_rows (tenant s ctx).org_id)
    pure (schedules_to_dtos rows)

  unfoldable pub update_backup_schedule : String → Bool → ℤ → ℤ → Bool → Exec Error (Unit {0})
  update_backup_schedule id enabled interval retention offsite = do
    authorize s ctx "update" (target_of "backup" id)
    mapped (
        update_schedule_row id (tenant s ctx).org_id enabled (clamp_interval interval) retention
          offsite)
    audit s ctx "backup.schedule.update" "backup_schedule" id none

  unfoldable pub delete_backup_schedule : String → Exec Error (Unit {0})
  delete_backup_schedule id = do
    authorize s ctx "delete" (target_of "backup" id)
    mapped (delete_schedule_row id (tenant s ctx).org_id)
    audit s ctx "backup.schedule.delete" "backup_schedule" id none
