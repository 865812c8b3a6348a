-- ===== src/Backups/Finish.antt =====
-- The end of a backup's run (runBackup of internal/service/backups.go).
use mathlib.Core.Path.{subst}
use buktio.Base.{
  ℕ, ◌≡◌, refl, sym, String, ◌<>◌, Bool, true, false, ◌||◌, Option, none, some, List, [], ◌∷◌,
  arith, str_eq, find, update_where, Option-cases, inl, inr, if◌then◌else◌,
}
use buktio.Runtime.Rows.{BackupJob}
use buktio.Runtime.World.{World, Exec, run_dump, ignore, gets, ◌>>=◌}
use buktio.Runtime.Errors.{actions}
use buktio.Runtime.Facade.{Services}
use buktio.Storage.{ask}
use buktio.Backups.Jobs.{job_with, mark_backup_running, finish_backup_job}
use buktio.Backups.Runs.{
  Machine, failed_with, succeeded_at, dump_path, dump_sqlite, dump_postgres, run_backup,
}

abbrev pub is_over : String → Bool
is_over status = str_eq status "succeeded" || str_eq status "failed"

-- The job has succeeded or failed, at a time.
pub Over : String → ℕ → World → Type 0
Over id now v =
    (k : BackupJob) × (find (job_with id) v.db.backup_jobs ≡ some k)
    × (is_over k.status ≡ true)
    × (k.finished_at ≡ some now)

find-update_where :
    (id : String) (f : BackupJob → BackupJob) (js : List BackupJob) (j : BackupJob)
    → ((x : BackupJob) → (f x).id ≡ x.id)
    → find (job_with id) js ≡ some j
    → find (job_with id) (update_where (job_with id) f js) ≡ some (f j)
find-update_where id f [] j same h = ground (arith, h)
find-update_where id f (x ∷ xs) j same h =
    ground (arith, h, same x, find-update_where id f xs j same)

module _ (s : Services) (m : Machine) (id : String) where
  finished :
      (status path msg : String) (size : ℕ) (w : World) (j : BackupJob)
      → is_over status ≡ true
      → w.faults ≡ []
      → find (job_with id) w.db.backup_jobs ≡ some j
      → Over id w.now (ignore {F = String} (finish_backup_job id status path size msg) w).1
  unfolding Over finish_backup_job actions
  finished status path msg size w j over f h =
      let set : BackupJob → BackupJob = λ x. record x {
        status = status;
        path = path;
        size_bytes = size;
        error = msg;
        finished_at = some w.now;
      } in
      let there = find-update_where id set w.db.backup_jobs j (λ x. refl) h in
      (set j, ground (arith, f, there), over, refl)

  succeeded :
      (path : String) (w : World) (j : BackupJob)
      → w.faults ≡ []
      → find (job_with id) w.db.backup_jobs ≡ some j
      → Over id w.now (succeeded_at s m id path w).1
  unfolding gets ◌>>=◌
  succeeded path w j f h = finished "succeeded" path "" _ w j refl f h

  failed :
      (msg : String) (w : World) (j : BackupJob)
      → w.faults ≡ []
      → find (job_with id) w.db.backup_jobs ≡ some j
      → Over id w.now (failed_with s m id msg w).1
  failed msg w j f h = finished "failed" "" msg 0 w j refl f h

  dump_sqlite_lem :
      (path : String) (w : World) (j : BackupJob)
      → w.faults ≡ []
      → find (job_with id) w.db.backup_jobs ≡ some j
      → Over id w.now (dump_sqlite s m id path w).1
  unfolding dump_sqlite ask actions
  dump_sqlite_lem path w j f h =
      let v = record w { trail = run_dump path ∷ w.trail } in
      elim (Option-cases (m.vacuum_into w.trail path)) [
        | inl e ↦ rw e (succeeded path v j f h)
        | inr (msg, e) ↦ rw e (failed ("vacuum into: " <> msg) v j f h)
      ]

  dump_postgres_lem :
      (path : String) (refused : Option String) (w : World) (j : BackupJob)
      → m.parse_url s.database_url ≡ refused
      → w.faults ≡ []
      → find (job_with id) w.db.backup_jobs ≡ some j
      → Over id w.now (dump_postgres s m id path w).1
  unfolding dump_postgres ask actions
  dump_postgres_lem path (some msg) w j p f h =
      rw (p, dump_postgres) (failed ("parse database url: " <> msg) w j f h)
  dump_postgres_lem path none w j p f h =
      let v = record w { trail = run_dump path ∷ w.trail } in
      rw (p, dump_postgres)
        (elim (Option-cases (m.pg_dump w.trail path)) [
          | inl e ↦ rw e (succeeded path v j f h)
          | inr (msg, e) ↦ rw e (failed ("pg_dump: " <> msg) v j f h)
        ])

  dumped :
      (sqlite : Bool) (w : World) (j : BackupJob)
      → w.faults ≡ []
      → find (job_with id) w.db.backup_jobs ≡ some j
      → let path = dump_path s m w.now in
        Over id w.now ((if sqlite then dump_sqlite s m id path else dump_postgres s m id path) w).1
  dumped true w j f h = dump_sqlite_lem _ w j f h
  dumped false w j f h = dump_postgres_lem _ _ w j refl f h

  -- The run behind its first statement.
  abbrev dumping : Exec String (Unit {0})
  dumping = do
    refused ← gets (λ w. m.make_dir w.trail s.backup_dir)
    now ← gets (λ w. w.now)
    elim refused [
      | some msg ↦ failed_with s m id ("create backup dir: " <> msg)
      | none ↦
          (if s.is_sqlite
            then dump_sqlite s m id (dump_path s m now)
            else dump_postgres s m id (dump_path s m now))
    ]

  dumping_lem :
      (refused : Option String) (w : World) (j : BackupJob)
      → m.make_dir w.trail s.backup_dir ≡ refused
      → w.faults ≡ []
      → find (job_with id) w.db.backup_jobs ≡ some j
      → Over id w.now (dumping w).1
  unfolding gets ◌>>=◌
  dumping_lem (some msg) w j e f h = rw e (failed ("create backup dir: " <> msg) w j f h)
  dumping_lem none w j e f h = rw e (dumped s.is_sqlite w j f h)

  abbrev running : BackupJob → BackupJob
  running j = record j { status = "running" }

  abbrev marked : World → World
  marked w = record w {
    db = record w.db { backup_jobs = update_where (job_with id) running w.db.backup_jobs };
  }

  mark_lem : (w : World) → w.faults ≡ [] → (mark_backup_running id w).1 ≡ marked w
  unfolding mark_backup_running actions
  mark_lem w f = ground (arith, f)

-- Where no statement fails, and whatever the directory, the database and the dump answer: the run
-- of a backup's job ends with the job succeeded or failed, and never leaves it running.
pub run_backup-finishes :
    (s : Services) (m : Machine) (id : String) (w : World) (j : BackupJob)
    → w.faults ≡ []
    → find (job_with id) w.db.backup_jobs ≡ some j
    → (k : BackupJob) × (find (job_with id) (run_backup s m id w).1.db.backup_jobs ≡ some k)
      × (is_over k.status ≡ true)
      × (k.finished_at ≡ some w.now)
unfolding run_backup ignore gets ◌>>=◌ Over
run_backup-finishes s m id w j f h =
    let there = find-update_where id (running s m id) w.db.backup_jobs j (λ x. refl) h in
    subst (λ v. Over id w.now (dumping s m id v).1) (sym (mark_lem s m id w f))
      (dumping_lem s m id _ (marked s m id w) (running s m id j) refl f there)
