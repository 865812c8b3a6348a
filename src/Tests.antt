-- ===== src/Tests.antt =====
-- A small installation on which the theorems are applied: an organisation with an owner, a member,
-- an invitation and a bucket.
pub mod Audit
pub mod Members
pub mod Billing
pub mod Storage
pub mod Jobs
pub mod Backups
pub mod Traffic
pub mod Secrets
pub mod Clusters
pub mod Accounts
pub mod Imports
use buktio.Base.{ℕ, ◌+◌, String, ◌<>◌, true, false, none, some, List, [], ◌∷◌, str_eq}
use buktio.Base.Int.{pos}
use buktio.Runtime.Rows.{
  User, Membership, Organization, Bucket, TrashItem, BillingCustomer, Db, empty_db,
}
use buktio.Runtime.World.{World, Call, Result, ok}
use buktio.Runtime.Facade.{Lib, Services, Context, Subject, permit_all, always_allowed}

abbrev pub lib : Lib
lib = record {
  sha256 = λ x. String.◌∷◌ "h" x;
  itoa = λ n. "1";
  format_rfc3339_nano = λ n. "t";
  marshal = λ m. some "{}";
  jsonb_text = λ x. x;
  new_token = λ n. ok "token";
  hash_password = λ n p. ok p;
  new_uuid = λ n. "new";
  to_lower = λ x. x;
  to_upper = λ x. x;
  trim_space = λ x. x;
  trim_slashes = λ x. x;
  verify_password = λ password hash. ok (str_eq password hash);
  org_slug = λ name n. name;
  last_four = λ x. x;
}

abbrev pub services : Services
services = record {
  org_id = "acme";
  project_id = "p1";
  cluster_id = "c1";
  public_base_url = "https://buktio.test";
  system_key_id = "GKsystem";
  web_public_domain = "web.test";
  database_url = "postgres://db";
  backup_dir = "/backups";
  offsite_bucket = "";
  offsite_access_key = "";
  offsite_secret = "";
  self_serve_signup = true;
  signup_dev_return_token = true;
  is_sqlite = false;
  can = permit_all;
  enforces = false;
  allowed = always_allowed;
  limit = λ resource org. record { unlimited = false; max = pos 3 };
  lib = lib;
}

abbrev pub operator : Subject
operator = record {
  user_id = "ann";
  tenant_id = "acme";
  role = "owner";
  platform_admin = true;
  ip = "";
  now = 0;
}

abbrev pub ctx : Context
ctx = record { subject = some operator; tenant = none }

abbrev pub user : String → User
user id = record {
  id = id;
  email = id <> "@acme.test";
  full_name = id;
  password_hash = "";
  is_platform_admin = false;
  email_verified = true;
  last_login_at = none;
  deleted = false;
}

abbrev pub acme : Organization
acme = record {
  id = "acme";
  name = "Acme";
  slug = "acme";
  status = "active";
  suspended_at = none;
  suspend_reason = "";
  quota_max_bytes = none;
  deleted = false;
}

abbrev pub bucket : Bucket
bucket = record {
  id = "b1";
  org_id = "acme";
  project_id = "p1";
  cluster_id = "c1";
  name = "photos";
  garage_bucket_id = "g1";
  garage_global_alias = "photos";
  visibility = "private";
  website_enabled = false;
  website_index_doc = "index.html";
  website_error_doc = "";
  quota_max_size = none;
  quota_max_objects = none;
  created_at = 0;
  deleted = false;
}

-- An object that was trashed from another bucket.
abbrev pub trashed : TrashItem
trashed = record {
  id = "t1";
  bucket_id = "b2";
  org_id = "acme";
  original_key = "cat.jpg";
  trash_key = ".trash/1/cat.jpg";
  size_bytes = 10;
  deleted_at = 1;
  purge_after = 9;
  restored = false;
}

abbrev pub customer : BillingCustomer
customer = record {
  org_id = "acme";
  stripe_customer_id = "cus";
  stripe_subscription_id = "sub";
  storage_item_id = "si_storage";
  egress_item_id = "si_egress";
  requests_item_id = "";
  status = "active";
}

abbrev pub db : Db
db = record empty_db {
  users = user "ann" ∷ user "bob" ∷ [];
  members =
      record { org_id = "acme"; user_id = "ann"; role = "owner" }
      ∷ record { org_id = "acme"; user_id = "bob"; role = "member" }
      ∷ [];
  organizations = acme ∷ [];
  buckets = bucket ∷ [];
  trash = trashed ∷ [];
  billing_customers = customer ∷ [];
}

abbrev pub world : World
world = record { db = db; audit_rows = []; faults = []; now = 5; draws = 0; trail = [] }

-- The statement that comes next fails.
abbrev pub failing : World
failing = record world { faults = some "connection lost" ∷ [] }
