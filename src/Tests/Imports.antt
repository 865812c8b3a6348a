-- ===== src/Tests/Imports.antt =====
-- The theorem on the worker of a migration, applied to a source with one page.
use buktio.Base.{◌+◌, ◌≡◌, refl, true, false, none, some, [], ◌∷◌, arith, find}
use buktio.Runtime.Rows.{MigrationJob}
use buktio.Runtime.World.{World, ok}
use buktio.Storage.{Page}
use buktio.Migrations.Store.{job_with_id}
use buktio.Migrations.Worker.{Source, run_migration}
use buktio.Migrations.Counts.{Copies, total, count_of, bytes_of, last_token}
use buktio.Migrations.Completion.{run_migration-completes}
use buktio.Tests.{services, world, db, bucket}
use buktio.Tests.Storage.{backend}

abbrev job : MigrationJob
job = record {
  id = "m1";
  org_id = "acme";
  source_endpoint = "https://old.test";
  source_region = "us-east-1";
  source_bucket = "old";
  source_access_key = "key";
  source_secret_enc = "sealed";
  dest_bucket_id = "b1";
  status = "pending";
  copied_objects = 0;
  copied_bytes = 0;
  cursor = "";
  error = "";
}

abbrev only_page : Page
only_page = record {
  objects =
      record { key = "cat.jpg"; size = 10; is_prefix = false }
      ∷ record { key = "dogs/"; size = 0; is_prefix = true }
      ∷ [];
  common_prefixes = [];
  next_token = "";
  is_truncated = false;
}

abbrev source : Source
source = record {
  open_secret = λ sealed. ok "secret";
  list = λ trail j token. ok only_page;
  get = λ trail j key. ok 10;
  spool = λ trail n. none;
  error_text = λ e. "";
  quote = λ key. key;
}

copies : Copies backend source job "photos"
copies = record {
  size = λ key. 10;
  got = λ t key. refl;
  spooled = λ t n. refl;
  written = λ t key n. refl;
  headed = λ t key. refl;
}

abbrev importing : World
importing = record world { db = record db { migrations = job ∷ [] } }

run_migration-completes_example :
    find (job_with_id "m1") (run_migration services backend source 3 "m1" importing).1.db.migrations
    ≡ some (record job {
      status = "completed";
      error = "";
      copied_objects = 0 + total count_of (only_page ∷ []);
      copied_bytes = 0 + total bytes_of (only_page ∷ []);
      cursor = last_token "" (only_page ∷ []);
    })
run_migration-completes_example =
    run_migration-completes services backend source job bucket "secret" (only_page ∷ []) 3 importing
      refl refl refl refl refl refl refl copies (λ t. refl, refl) (omega arith)
