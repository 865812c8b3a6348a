-- ===== src/Backups/Store.antt =====
-- The statements on backup schedules (internal/repository/backup_schedules.go).
use buktio.Base.{
  ℕ, ◌+◌, ◌*◌, String, Bool, true, not, ◌&&◌, ◌||◌, none, some, List, [], ◌∷◌, ◌++◌, leb, str_eq,
  select, any, update_where, if◌then◌else◌,
}
use buktio.Base.Int.{ℤ, pos_part}
use buktio.Runtime.Rows.{BackupSchedule, BackupJob}
use buktio.Runtime.World.{
  RepoErr, not_found, violation, Exec, ◌>>=◌, ◌>>◌, pure, raise, gets, statement, wrapped, put_db,
  draw,
}
use buktio.Runtime.Facade.{Services}

-- A minute, in nanoseconds.
abbrev pub minute : ℕ
minute = 60 * 1000000000

-- `WHERE id=$1::uuid AND org_id=$2::uuid`
abbrev pub schedule_of : String → String → BackupSchedule → Bool
schedule_of id org r = str_eq r.id id && str_eq r.org_id org

-- `make_interval(mins => $2)` after now; the services pass at least five minutes.
abbrev pub next_run : ℕ → ℤ → ℕ
next_run now interval = now + pos_part interval * minute

-- The organisation has a row, or is NULL.
unfoldable pub create_schedule_row : Services → String → ℤ → ℤ → Bool → Exec RepoErr String
create_schedule_row s org interval retention offsite =
    wrapped "repository: create backup schedule: " (
      statement (λ w.
        (if not (str_eq org "" || any (λ o. str_eq o.id org) w.db.organizations)
            then raise violation
            else do
              n ← draw
              let id = s.lib.new_uuid n
              put_db (record w.db {
                schedules =
                    w.db.schedules
                    ++ record {
                      id = id;
                      org_id = org;
                      enabled = true;
                      interval_minutes = interval;
                      retention_count = retention;
                      offsite_enabled = offsite;
                      next_run_at = next_run w.now interval;
                      last_run_at = none;
                    }
                      ∷ [];
              })
              pure id)
          w))

unfoldable pub schedule_rows : String → Exec RepoErr (List BackupSchedule)
schedule_rows org =
    wrapped "repository: list backup schedules: "
      (statement (gets (λ w. select (λ (r : BackupSchedule). str_eq r.org_id org) w.db.schedules)))

-- No such row in the organisation is an error.
unfoldable pub update_schedule_row : String → String → Bool → ℤ → ℤ → Bool → Exec RepoErr (Unit {0})
update_schedule_row id org enabled interval retention offsite = statement (λ w.
    (if any (schedule_of id org) w.db.schedules
        then put_db (record w.db {
          schedules =
              update_where (schedule_of id org)
                (λ r. record r {
                  enabled = enabled;
                  interval_minutes = interval;
                  retention_count = retention;
                  offsite_enabled = offsite;
                })
                w.db.schedules;
        })
        else raise not_found)
      w)

-- A schedule that a backup job refers to is not deleted.
unfoldable pub delete_schedule_row : String → String → Exec RepoErr (Unit {0})
delete_schedule_row id org = statement (λ w.
    (if not (any (schedule_of id org) w.db.schedules)
        then raise not_found
        else if any (λ (j : BackupJob). str_eq j.schedule_id id) w.db.backup_jobs
        then raise violation
        else put_db
            (record w.db { schedules = select (λ r. not (schedule_of id org r)) w.db.schedules }))
      w)

unfoldable pub due_schedules : Exec RepoErr (List BackupSchedule)
due_schedules = wrapped "repository: due backup schedules: " (
    statement (
      gets (λ w.
        select (λ (r : BackupSchedule). r.enabled && leb r.next_run_at w.now) w.db.schedules)))

unfoldable pub mark_schedule_ran : String → ℤ → Exec RepoErr (Unit {0})
mark_schedule_ran id interval = statement (λ w.
    put_db
      (record w.db {
        schedules =
            update_where (λ (r : BackupSchedule). str_eq r.id id)
              (λ r. record r { last_run_at = some w.now; next_run_at = next_run w.now interval })
              w.db.schedules;
      })
      w)
