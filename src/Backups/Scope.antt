-- ===== src/Backups/Scope.antt =====
-- The scope of the operations on schedules (internal/service/backup_scheduler.go).
use buktio.Base.{
  ◌≡◌, ◌≢◌, refl, String, Bool, not, List, [], ◌∷◌, arith, str_eq, eq_iff, select, update_where,
  none,
}
use buktio.Base.Int.{ℤ}
use buktio.Runtime.Rows.{Db, BackupSchedule}
use buktio.Runtime.World.{World, Call, put_db, raise}
use buktio.Runtime.Errors.{Error}
use buktio.Runtime.Facade.{Services, Context, tenant}
use buktio.Runtime.Holds.{Holds, Holds-statement, Holds-bind, Holds-mapped}
use buktio.Audit.{audit}
use buktio.Audit.Frame.{audit-Holds}
use buktio.Guard.Lookups.{authorize-Holds}
use buktio.Backups.Store.{schedule_of, update_schedule_row, delete_schedule_row}
use buktio.Backups.{clamp_interval, update_backup_schedule, delete_backup_schedule}

-- The schedules of an organisation.
abbrev pub schedules_in : String → List BackupSchedule → List BackupSchedule
schedules_in org rs = select (λ (r : BackupSchedule). str_eq r.org_id org) rs

module _ (org other : String) (apart : other ≢ org) where
  schedules_in-update :
      (id : String) (enabled : Bool) (interval retention : ℤ) (offsite : Bool)
      (rs : List BackupSchedule)
      → schedules_in other (
          update_where
            (schedule_of id org)
            (λ r. record r {
              enabled = enabled;
              interval_minutes = interval;
              retention_count = retention;
              offsite_enabled = offsite;
            })
            rs)
        ≡ schedules_in other rs
  schedules_in-update id enabled interval retention offsite [] = refl
  schedules_in-update id enabled interval retention offsite (r ∷ rs) = ground (
    arith,
    schedules_in-update id enabled interval retention offsite rs,
    eq_iff r.org_id org,
    eq_iff r.org_id other,
  )

  schedules_in-delete :
      (id : String) (rs : List BackupSchedule)
      → schedules_in other (select (λ r. not (schedule_of id org r)) rs) ≡ schedules_in other rs
  schedules_in-delete id [] = refl
  schedules_in-delete id (r ∷ rs) =
      ground (arith, schedules_in-delete id rs, eq_iff r.org_id org, eq_iff r.org_id other)

-- The schedules of an organisation are as they were.
abbrev IsKept : String → List BackupSchedule → List Call → Db → Type 0
IsKept other before t d = schedules_in other d.schedules ≡ before

module _ (org other : String) (apart : other ≢ org) (before : List BackupSchedule) where
  update_schedule_row-Holds :
      (id : String) (enabled : Bool) (interval retention : ℤ) (offsite : Bool)
      → Holds (IsKept other before) (update_schedule_row id org enabled interval retention offsite)
  unfolding update_schedule_row put_db raise
  update_schedule_row-Holds id enabled interval retention offsite = Holds-statement _ (record {
    at = λ w h. ground (
      arith,
      h,
      schedules_in-update org other apart id enabled interval retention offsite w.db.schedules,
    );
  })

  delete_schedule_row-Holds :
      (id : String) → Holds (IsKept other before) (delete_schedule_row id org)
  unfolding delete_schedule_row put_db raise
  delete_schedule_row-Holds id = Holds-statement _ (record {
    at = λ w h. ground (arith, h, schedules_in-delete org other apart id w.db.schedules);
  })

module _ (s : Services) (ctx : Context) (other : String) (apart : other ≢ (tenant s ctx).org_id)
    (before : List BackupSchedule) where
  audited :
      (action target id : String)
      → Holds (IsKept other before) (audit s {E = Error} ctx action target id none)
  audited action target id = audit-Holds s ctx action target id none (λ ev t d h. h)

  update-Holds :
      (id : String) (enabled : Bool) (interval retention : ℤ) (offsite : Bool)
      → Holds
          (IsKept other before)
          (update_backup_schedule s ctx id enabled interval retention offsite)
  unfolding update_backup_schedule
  update-Holds id enabled interval retention offsite =
      Holds-bind _ _ (authorize-Holds s ctx _ _) (λ _.
        Holds-bind _ _
          (Holds-mapped _ (
            update_schedule_row-Holds (tenant s ctx).org_id other apart before id enabled
              (clamp_interval interval) retention offsite))
          (λ _. audited _ _ id))

  delete-Holds : (id : String) → Holds (IsKept other before) (delete_backup_schedule s ctx id)
  unfolding delete_backup_schedule
  delete-Holds id = Holds-bind _ _ (authorize-Holds s ctx _ _) (λ _.
      Holds-bind _ _
        (Holds-mapped _ (delete_schedule_row-Holds (tenant s ctx).org_id other apart before id))
        (λ _. audited _ _ id))

-- Whatever statement fails and whichever id is given: updating and deleting a schedule leaves the
-- schedules of every organisation but the tenant's as they were.
pub schedules_scoped :
    (s : Services) (ctx : Context) (id : String) (enabled : Bool) (interval retention : ℤ)
    (offsite : Bool) (other : String) (w : World)
    → other ≢ (tenant s ctx).org_id
    → (schedules_in other
          (update_backup_schedule s ctx id enabled interval retention offsite w).1.db.schedules
        ≡ schedules_in other w.db.schedules)
      × (schedules_in other (delete_backup_schedule s ctx id w).1.db.schedules
          ≡ schedules_in other w.db.schedules)
schedules_scoped s ctx id enabled interval retention offsite other w apart = (
  (update-Holds s ctx other apart (schedules_in other w.db.schedules) id enabled interval retention
        offsite).at
      w refl,
  (delete-Holds s ctx other apart (schedules_in other w.db.schedules) id).at w refl,
)
