-- ===== src/Migrations/Counts.antt =====
-- The pages that a source lists, what they come to, and the worker's statements where none fails
-- (internal/service/migrations.go).
use buktio.Base.{
  ℕ, suc, ◌+◌, ◌≡◌, String, true, false, not, ◌&&◌, ◌||◌, none, some, List, [], ◌∷◌, arith, str_eq,
  find, update_where, if◌then◌else◌,
}
use buktio.Runtime.Rows.{Bucket, MigrationJob}
use buktio.Runtime.World.{World, Call, ok}
use buktio.Runtime.Errors.{actions}
use buktio.Guard.{get_bucket}
use buktio.Storage.{Storage, Object, Page}
use buktio.Migrations.Store.{
  job_with_id, get_migration_job_by_id, set_migration_status, update_migration_progress,
}
use buktio.Migrations.Worker.{Source}

-- What the objects of a page come to; a prefix is none.
abbrev pub count_of : List Object → ℕ
count_of [] = 0
count_of (o ∷ os) = if o.is_prefix then count_of os else suc (count_of os)

abbrev pub bytes_of : List Object → ℕ
bytes_of [] = 0
bytes_of (o ∷ os) = if o.is_prefix then bytes_of os else o.size + bytes_of os

abbrev pub total : (List Object → ℕ) → List Page → ℕ
total f [] = 0
total f (p ∷ ps) = f p.objects + total f ps

abbrev pub last_token : String → List Page → String
last_token token [] = token
last_token token (p ∷ ps) = last_token p.next_token ps

-- From a token on, the source lists these pages, each at the token of the one before it; the last
-- one says that there are no more.
abbrev pub Lists : Source → MigrationJob → String → List Page → Type 0
Lists src j token [] = ⊥
Lists src j token (p ∷ []) =
    ((t : List Call) → src.list t j token ≡ ok p)
    × ((not p.is_truncated || str_eq p.next_token "") ≡ true)
Lists src j token (p ∷ q ∷ ps) =
    ((t : List Call) → src.list t j token ≡ ok p)
    × ((not p.is_truncated || str_eq p.next_token "") ≡ false)
    × Lists src j p.next_token (q ∷ ps)

-- Every object can be read, spooled and written, and has its size afterwards.
pub record Copies (st : Storage) (src : Source) (j : MigrationJob) (alias : String) : Type 0 where
  pub size : String → ℕ
  pub got : (t : List Call) (key : String) → src.get t j key ≡ ok (size key)
  pub spooled : (t : List Call) (n : ℕ) → src.spool t n ≡ none
  pub written : (t : List Call) (key : String) (n : ℕ) → st.put t alias key n ≡ none
  pub headed : (t : List Call) (key : String) → st.head t alias key ≡ ok (size key)

pub find-update :
    (id : String) (f : MigrationJob → MigrationJob) (js : List MigrationJob) (j : MigrationJob)
    → ((k : MigrationJob) → (f k).id ≡ k.id)
    → find (job_with_id id) js ≡ some j
    → find (job_with_id id) (update_where (job_with_id id) f js) ≡ some (f j)
find-update id f [] j same h = ground arith
find-update id f (x ∷ js) j same h = ground (arith, same x, find-update id f js j same)

-- The rows after the progress of a job was stored.
abbrev pub progressed : String → String → ℕ → ℕ → List MigrationJob → List MigrationJob
progressed id cursor objects bytes js =
    update_where (job_with_id id)
      (λ k. record k {
        cursor = cursor;
        copied_objects = objects;
        copied_bytes = bytes;
        status = "running";
      })
      js

pub get_lem :
    (id : String) (cur : MigrationJob) (w : World)
    → w.faults ≡ []
    → find (job_with_id id) w.db.migrations ≡ some cur
    → get_migration_job_by_id id w ≡ (ok cur, w)
unfolding get_migration_job_by_id actions
get_lem id cur w f found = ground (arith, f, found)

pub update_lem :
    (id cursor : String) (objects bytes : ℕ) (w : World)
    → w.faults ≡ []
    → update_migration_progress id cursor objects bytes w ≡ (
      ok tt,
      record w {
        db = record w.db { migrations = progressed id cursor objects bytes w.db.migrations };
      },
    )
unfolding update_migration_progress actions
update_lem id cursor objects bytes w f = ground (arith, f)

pub set_lem :
    (id status msg : String) (w : World)
    → w.faults ≡ []
    → set_migration_status id status msg w ≡ (
      ok tt,
      record w {
        db = record w.db {
          migrations =
              update_where
                (job_with_id id)
                (λ j. record j { status = status; error = msg })
                w.db.migrations;
        };
      },
    )
unfolding set_migration_status actions
set_lem id status msg w f = ground (arith, f)

pub get_bucket_lem :
    (id : String) (b : Bucket) (w : World)
    → w.faults ≡ []
    → find (λ (x : Bucket). str_eq x.id id && not x.deleted) w.db.buckets ≡ some b
    → get_bucket id w ≡ (ok b, w)
unfolding get_bucket actions
get_bucket_lem id b w f found = ground (arith, f, found)
