-- ===== src/Migrations/Worker.antt =====
-- The worker of a migration job (runMigration, copyOneObject and ResumeMigrations of
-- internal/service/migrations.go). The source's client and the local files are a parameter. The
-- loop over the pages has no bound of its own: `fuel` is the number of pages that are read at most.
use buktio.Base.{
  ℕ, zero, suc, ◌+◌, ◌==◌, String, ◌<>◌, Bool, not, ◌&&◌, ◌||◌, Option, none, some, List, [], ◌∷◌,
  ltb, str_eq, if◌then◌else◌,
}
use buktio.Runtime.Rows.{Bucket, MigrationJob}
use buktio.Runtime.World.{
  Call, read_source, put_object, head_object, Result, ok, err, Exec, ◌>>=◌, ◌>>◌, pure, raise, gets,
  attempt, or_zero, ignore,
}
use buktio.Runtime.Facade.{Services, Context, background, with_tenant}
use buktio.Guard.{get_bucket}
use buktio.Metering.{emit}
use buktio.Storage.{Storage, StorageErr, Object, Page, ask, provider_for_bucket}
use buktio.Migrations.Store.{
  get_migration_job_by_id, list_resumable_migration_job_ids, set_migration_status,
  update_migration_progress,
}

-- The sealer, the client of a job's source, and a temporary file.
pub record Source : Type 0 where
  pub open_secret : String → Result String String
  pub list : List Call → MigrationJob → String → Result String Page
  -- The bytes of an object, by their number.
  pub get : List Call → MigrationJob → String → Result String ℕ
  -- Why a temporary file cannot be written or rewound.
  pub spool : List Call → ℕ → Option String
  pub error_text : StorageErr → String
  pub quote : String → String

abbrev pub or_text : Option String → Exec String (Unit {0})
or_text none = pure tt
or_text (some msg) = raise msg

abbrev pub or_value : {A : Type 0} → Result String A → Exec String A
or_value (ok a) = pure a
or_value (err msg) = raise msg

abbrev pub put_error : Source → Option StorageErr → Option String
put_error src none = none
put_error src (some e) = some (src.error_text e)

module _ (s : Services) (st : Storage) (src : Source) where
  -- `herr == nil && n > 0 && h.Size != n`
  abbrev pub mismatch : Result StorageErr ℕ → ℕ → Option String
  mismatch (err e) n = none
  mismatch (ok size) n =
      if ltb 0 n && not (size == n)
      then some ("size mismatch after copy: got " <> s.lib.itoa size <> " want " <> s.lib.itoa n)
      else none

  unfoldable pub copy_one_object : MigrationJob → String → Object → Exec String (Unit {0})
  copy_one_object j alias o = do
    content ← ask (λ t. src.get t j o.key) (read_source j.source_bucket o.key)
    n ← or_value content
    spooled ← gets (λ w. src.spool w.trail n)
    or_text spooled
    refused ← ask (λ t. st.put t alias o.key n) (put_object alias o.key)
    or_text (put_error src refused)
    head ← ask (λ t. st.head t alias o.key) (head_object alias o.key)
    or_text (mismatch head n)

  -- The objects and bytes copied so far, after a page; an error names the object. The counters are
  -- unbounded here and int64 in the code.
  unfoldable pub copy_page :
      Context → MigrationJob → Bucket → List Object → ℕ → ℕ → Exec String (ℕ × ℕ)
  copy_page ctx j dest [] objects bytes = pure (objects, bytes)
  copy_page ctx j dest (o ∷ os) objects bytes =
      if o.is_prefix then copy_page ctx j dest os objects bytes else do
        copied ← (λ w.
            let (r, v) = copy_one_object j dest.garage_global_alias o w in
            (elim r [ ok u ↦ ok u | err msg ↦ err ("copy " <> src.quote o.key <> ": " <> msg) ], v))
        emit s ctx "object.uploaded" dest.id o.size
        copy_page ctx j dest os (objects + 1) (bytes + o.size)

  abbrev pub is_canceled : Option MigrationJob → Bool
  is_canceled none = Bool.false
  is_canceled (some j) = str_eq j.status "canceled"

  unfoldable pub give_up : {E : Type 0} → String → String → Exec E (Unit {0})
  give_up id msg = ignore (set_migration_status id "failed" msg)

  unfoldable pub copy_pages :
      ℕ → Context → MigrationJob → Bucket → String → ℕ → ℕ → Exec String (Unit {0})
  unfolding give_up copy_page
  copy_pages zero ctx j dest cursor objects bytes = pure tt
  copy_pages (suc fuel) ctx j dest cursor objects bytes = do
    current ← attempt (get_migration_job_by_id j.id)
    if is_canceled current then pure tt else do
      listed ← ask (λ t. src.list t j cursor) (read_source j.source_bucket "")
      elim listed [
        | err msg ↦ give_up j.id ("list source: " <> msg)
        | ok page ↦ (λ w.
            let (r, v) = copy_page ctx j dest page.objects objects bytes w in
            elim r [
              | err msg ↦ give_up j.id msg v
              | ok counts ↦
                  (do
                    ignore (update_migration_progress j.id page.next_token counts.0 counts.1)
                    if not page.is_truncated || str_eq page.next_token ""
                        then ignore (set_migration_status j.id "completed" "")
                        else copy_pages fuel ctx j dest page.next_token counts.0 counts.1)
                    v
            ])
      ]

  -- With the destination at hand.
  unfoldable pub copy_to_bucket : ℕ → MigrationJob → Bucket → Exec String (Unit {0})
  unfolding copy_pages give_up
  copy_to_bucket fuel j dest = do
    failure ← provider_for_bucket st dest
    elim failure [
      | some msg ↦ give_up j.id "dest cluster unreachable"
      | none ↦
          let ctx = with_tenant background (record {
            org_id = j.org_id;
            project_id = dest.project_id;
            cluster_id = dest.cluster_id;
          }) in
          copy_pages fuel ctx j dest j.cursor j.copied_objects j.copied_bytes
    ]

  unfoldable pub run_job : ℕ → MigrationJob → Exec String (Unit {0})
  unfolding copy_to_bucket give_up
  run_job fuel j =
      if str_eq j.status "completed" || str_eq j.status "canceled"
      then pure tt
      else elim (src.open_secret j.source_secret_enc) [
        | err msg ↦ give_up j.id "cannot decrypt source secret"
        | ok secret ↦ do
          dest ← attempt (get_bucket j.dest_bucket_id)
          elim dest [
            | none ↦ give_up j.id "dest bucket unavailable"
            | some b ↦ copy_to_bucket fuel j b
          ]
      ]

  unfoldable pub run_migration : ℕ → String → Exec String (Unit {0})
  unfolding run_job
  run_migration fuel id = do
    j ← attempt (get_migration_job_by_id id)
    elim j [ none ↦ pure tt | some job ↦ run_job fuel job ]

  -- Each job runs on its own; here they run one after the other.
  unfoldable pub run_each : ℕ → List String → Exec String (Unit {0})
  unfolding run_migration
  run_each fuel [] = pure tt
  run_each fuel (id ∷ ids) = do run_migration fuel id; run_each fuel ids

  unfoldable pub resume_migrations : ℕ → Exec String (Unit {0})
  unfolding run_each
  resume_migrations fuel = do ids ← or_zero [] list_resumable_migration_job_ids; run_each fuel ids
