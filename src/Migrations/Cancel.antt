-- ===== src/Migrations/Cancel.antt =====
-- The cancellation of a job (CancelMigration of internal/service/migrations.go) and the progress
-- that the worker stores.
use buktio.Base.{
  ℕ, ◌≡◌, refl, String, true, ◌&&◌, Option, none, some, List, [], ◌∷◌, arith, str_eq, eq_iff,
  eq_refl, find, any, ap, ◌∙◌, inl, inr, Bool-cases, update_where, select, if◌then◌else◌,
}
use buktio.Runtime.Rows.{MigrationJob}
use buktio.Runtime.World.{World, ok, err, statement, put_db}
use buktio.Runtime.Errors.{not_found_err, actions}
use buktio.Runtime.Facade.{Services, Context, subject_from, tenant}
use buktio.Guard.{scim_token_actor}
use buktio.Migrations.Store.{
  job_of, job_with_id, get_migration_job, set_migration_status, update_migration_progress, job_ids,
  is_resumable, list_resumable_migration_job_ids,
}
use buktio.Migrations.{cancel_migration}

-- The status of the job with an id.
abbrev pub status_of : String → List MigrationJob → Option String
status_of id [] = none
status_of id (j ∷ js) = if str_eq j.id id then some j.status else status_of id js

status_of-update :
    (status id other : String) (f : MigrationJob → MigrationJob) (js : List MigrationJob)
    → ((j : MigrationJob) → (f j).id ≡ j.id)
    → ((j : MigrationJob) → (f j).status ≡ status)
    → status_of other (update_where (job_with_id id) f js)
      ≡ (if str_eq other id && any (job_with_id id) js then some status else status_of other js)
status_of-update status id other f [] same_id sets = ground arith
status_of-update status id other f (x ∷ js) same_id sets = elim (Bool-cases (str_eq x.id id)) [
  | inl b ↦ rw b (
      ground (
        arith,
        status_of-update status id other f js same_id sets,
        b,
        same_id x,
        sets x,
        eq_iff x.id id,
        eq_iff x.id other,
        eq_iff other id,
      ))
  | inr b ↦ rw b (
      ground (
        arith,
        status_of-update status id other f js same_id sets,
        b,
        eq_iff x.id id,
        eq_iff x.id other,
        eq_iff other id,
      ))
]

any-found :
    (id org : String) (js : List MigrationJob) (j : MigrationJob)
    → find (job_of id org) js ≡ some j
    → any (job_with_id id) js ≡ true
any-found id org [] j h = ground arith
any-found id org (x ∷ js) j h = ground (arith, any-found id org js j)

module _ (s : Services) (ctx : Context) (id : String) (j : MigrationJob) (w : World)
    (reliable : w.faults ≡ []) (actor : (subject_from ctx).0.role ≡ "owner")
    (found : find (job_of id (tenant s ctx).org_id) w.db.migrations ≡ some j) where
  abbrev canceled_jobs : List MigrationJob
  canceled_jobs =
      update_where (job_with_id id) (λ j. record j { status = "canceled"; error = "" })
        w.db.migrations

  canceled :
      cancel_migration s ctx id w
      ≡ (ok tt, record w { db = record w.db { migrations = canceled_jobs } })
  unfolding cancel_migration scim_token_actor get_migration_job set_migration_status actions
  canceled = ground (arith, eq_iff (subject_from ctx).0.role "owner")

-- Where no statement fails: an owner cancels a job of the tenant, which is then canceled; the other
-- jobs have the status that they had.
pub cancel_migration-status_of :
    (s : Services) (ctx : Context) (id : String) (j : MigrationJob) (w : World) (other : String)
    → w.faults ≡ []
    → (subject_from ctx).0.role ≡ "owner"
    → find (job_of id (tenant s ctx).org_id) w.db.migrations ≡ some j
    → ((cancel_migration s ctx id w).0 ≡ ok tt)
      × (status_of other (cancel_migration s ctx id w).1.db.migrations
          ≡ (if str_eq other id then some "canceled" else status_of other w.db.migrations))
cancel_migration-status_of s ctx id j w other f a h =
    let there = any-found id (tenant s ctx).org_id w.db.migrations j h in
    (
      ap (λ p. p.0) (canceled s ctx id j w f a h),
      rw (canceled s ctx id j w f a h) (
          rw
            (status_of-update "canceled" id other
              (λ j. record j { status = "canceled"; error = "" }) w.db.migrations (λ j. refl)
              (λ j. refl))
            (ground (arith, there))),
    )

-- A job that the tenant does not have is not found, and nothing changes: where no statement fails.
cancel_migration_scoped :
    (s : Services) (ctx : Context) (id : String) (w : World)
    → w.faults ≡ []
    → (subject_from ctx).0.role ≡ "owner"
    → find (job_of id (tenant s ctx).org_id) w.db.migrations ≡ none
    → cancel_migration s ctx id w ≡ (err not_found_err, w)
unfolding cancel_migration scim_token_actor get_migration_job actions
cancel_migration_scoped s ctx id w f a h = ground (arith, eq_iff (subject_from ctx).0.role "owner")

any-canceled :
    (id : String) (js : List MigrationJob)
    → any (job_with_id id) js ≡ true
    → any
        (job_with_id id)
        (update_where (job_with_id id) (λ j. record j { status = "canceled"; error = "" }) js)
      ≡ true
any-canceled id [] h = h
any-canceled id (x ∷ js) h = elim (Bool-cases (str_eq x.id id)) [
  | inl b ↦ rw b (ground (arith, b))
  | inr b ↦ rw b (ground (arith, b, any-canceled id js))
]

resumed :
    (id cursor : String) (objects bytes : ℕ) (v : World)
    → v.faults ≡ []
    → any (job_with_id id) v.db.migrations ≡ true
    → status_of id (update_migration_progress id cursor objects bytes v).1.db.migrations
      ≡ some "running"
unfolding update_migration_progress statement put_db
resumed id cursor objects bytes v f there = rw f (
    status_of-update "running" id id
      (λ j. record j {
        cursor = cursor;
        copied_objects = objects;
        copied_bytes = bytes;
        status = "running";
      })
      v.db.migrations (λ j. refl) (λ j. refl)
    ∙ ground (arith, there, eq_refl id))

abbrev after_progress : String → String → ℕ → ℕ → List MigrationJob → List MigrationJob
after_progress id cursor objects bytes js =
    update_where (job_with_id id)
      (λ j. record j {
        cursor = cursor;
        copied_objects = objects;
        copied_bytes = bytes;
        status = "running";
      })
      js

listed :
    (id cursor : String) (objects bytes : ℕ) (js : List MigrationJob)
    → any (job_with_id id) js ≡ true
    → any
        (λ i. str_eq i id)
        (job_ids (select is_resumable (after_progress id cursor objects bytes js)))
      ≡ true
listed id cursor objects bytes [] h = h
listed id cursor objects bytes (x ∷ js) h = elim (Bool-cases (str_eq x.id id)) [
  | inl b ↦ rw b (ground (arith, b, eq_refl "running"))
  | inr b ↦ rw b (ground (arith, b, listed id cursor objects bytes js))
]

progress_stored :
    (id cursor : String) (objects bytes : ℕ) (u : World)
    → u.faults ≡ []
    → (update_migration_progress id cursor objects bytes u).1.db.migrations
      ≡ after_progress id cursor objects bytes u.db.migrations
unfolding update_migration_progress statement put_db
progress_stored id cursor objects bytes u f = ground (arith, f)

resumable_lem :
    (v : World)
    → v.faults ≡ []
    → (list_resumable_migration_job_ids v).0 ≡ ok (job_ids (select is_resumable v.db.migrations))
unfolding list_resumable_migration_job_ids actions
resumable_lem v f = ground (arith, f)

-- A cancellation is lost to the progress that the worker stores after it. Where no statement fails:
-- the job is canceled after the one and running after the other, and in a world with these jobs the
-- list of the jobs that a restart resumes has it.
pub update_migration_progress-cancel_migration :
    (s : Services) (ctx : Context) (id cursor : String) (objects bytes : ℕ) (j : MigrationJob)
    (w v : World)
    → w.faults ≡ []
    → (subject_from ctx).0.role ≡ "owner"
    → find (job_of id (tenant s ctx).org_id) w.db.migrations ≡ some j
    → v.faults ≡ []
    → v.db.migrations
      ≡ (update_migration_progress id cursor objects bytes
          (cancel_migration s ctx id w).1).1.db.migrations
    → (status_of id (cancel_migration s ctx id w).1.db.migrations ≡ some "canceled")
      × (status_of id v.db.migrations ≡ some "running")
      × ((ids : List String) × ((list_resumable_migration_job_ids v).0 ≡ ok ids)
          × (any (λ i. str_eq i id) ids ≡ true))
update_migration_progress-cancel_migration s ctx id cursor objects bytes j w v f a h f' same =
    let there = any-found id (tenant s ctx).org_id w.db.migrations j h in
    let once = canceled s ctx id j w f a h in
    let jobs = canceled_jobs s ctx id j w f a h in
    let w' = record w { db = record w.db { migrations = jobs } } in
    let still = any-canceled id w.db.migrations there in
    let step =
      ap (λ p. (update_migration_progress id cursor objects bytes p.1).1.db.migrations) once in
    let table : v.db.migrations ≡ after_progress id cursor objects bytes jobs =
      same ∙ step ∙ progress_stored id cursor objects bytes w' f in
    (
      (cancel_migration-status_of s ctx id j w id f a h).1 ∙ ground (arith, eq_refl id),
      ap (status_of id) (same ∙ step) ∙ resumed id cursor objects bytes w' f still,
      (
        job_ids (select is_resumable v.db.migrations),
        resumable_lem v f',
        rw table (listed id cursor objects bytes jobs still),
      ),
    )
