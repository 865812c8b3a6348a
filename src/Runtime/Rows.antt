-- ===== src/Runtime/Rows.antt =====
-- The rows of the tables that the modelled code reads and writes (internal/repository/store.go and
-- the files beside it). A list that is read newest first (invitations, sessions, buckets, keys,
-- trash, usage, migrations, backups, tokens, policies) has its newest row in front; the others have
-- it at the end.
-- A time is a number of nanoseconds, and a byte string is a text.
use buktio.Base.{ℕ, String, Bool, Option, some, List, []}
use buktio.Base.Int.{ℤ}

pub record User : Type 0 where
  pub id : String
  pub email : String
  pub full_name : String
  pub password_hash : String
  pub is_platform_admin : Bool
  pub email_verified : Bool
  pub last_login_at : Option ℕ
  pub deleted : Bool

-- A row of organization_members.
pub record Membership : Type 0 where
  pub org_id : String
  pub user_id : String
  pub role : String

pub record InvitationRow : Type 0 where
  pub id : String
  pub org_id : String
  pub email : String
  pub role : String
  pub token_hash : String
  pub invited_by : String
  pub expires_at : ℕ
  pub accepted : Bool

pub record Session : Type 0 where
  pub id : String
  pub user_id : String
  pub token_hash : String
  pub expires_at : ℕ
  pub revoked : Bool

pub record Organization : Type 0 where
  pub id : String
  pub name : String
  pub slug : String
  pub status : String
  pub suspended_at : Option ℕ
  pub suspend_reason : String
  pub quota_max_bytes : Option ℤ
  pub deleted : Bool

pub record Bucket : Type 0 where
  pub id : String
  pub org_id : String
  pub project_id : String
  pub cluster_id : String
  pub name : String
  pub garage_bucket_id : String
  pub garage_global_alias : String
  pub visibility : String
  pub website_enabled : Bool
  pub website_index_doc : String
  pub website_error_doc : String
  pub quota_max_size : Option ℤ
  pub quota_max_objects : Option ℤ
  pub created_at : ℕ
  pub deleted : Bool

-- A row of object_trash.
pub record TrashItem : Type 0 where
  pub id : String
  pub bucket_id : String
  pub org_id : String
  pub original_key : String
  pub trash_key : String
  pub size_bytes : ℕ
  pub deleted_at : ℕ
  pub purge_after : ℕ
  pub restored : Bool

pub record BillingCustomer : Type 0 where
  pub org_id : String
  pub stripe_customer_id : String
  pub stripe_subscription_id : String
  pub storage_item_id : String
  pub egress_item_id : String
  pub requests_item_id : String
  pub status : String

-- A row of billing_usage_reports.
pub record UsageReport : Type 0 where
  pub org_id : String
  pub metric : String
  pub quantity : ℕ
  pub period_start : ℕ
  pub period_end : ℕ
  pub idempotency_key : String

-- A row of usage_snapshots.
pub record UsageSnapshot : Type 0 where
  pub bucket_id : String
  pub org_id : String
  pub bytes_used : ℕ
  pub object_count : ℕ

-- A row of traffic_snapshots.
pub record TrafficSnapshot : Type 0 where
  pub bucket : String
  pub requests : ℕ
  pub bytes_out : ℕ
  pub captured_at : ℕ

-- A row of backup_schedules; an empty org_id is NULL.
pub record BackupSchedule : Type 0 where
  pub id : String
  pub org_id : String
  pub enabled : Bool
  pub interval_minutes : ℤ
  pub retention_count : ℤ
  pub offsite_enabled : Bool
  pub next_run_at : ℕ
  pub last_run_at : Option ℕ

-- A row of migration_jobs.
pub record MigrationJob : Type 0 where
  pub id : String
  pub org_id : String
  pub source_endpoint : String
  pub source_region : String
  pub source_bucket : String
  pub source_access_key : String
  pub source_secret_enc : String
  pub dest_bucket_id : String
  pub status : String
  pub copied_objects : ℕ
  pub copied_bytes : ℕ
  pub cursor : String
  pub error : String

pub record AccessKey : Type 0 where
  pub id : String
  pub org_id : String
  pub project_id : String
  pub cluster_id : String
  pub name : String
  pub garage_access_key_id : String
  pub secret_hash : String
  pub secret_last_four : String
  pub can_create_bucket : Bool
  pub created_at : ℕ
  pub deleted : Bool

-- A row of bucket_permissions.
pub record GrantRow : Type 0 where
  pub bucket_id : String
  pub access_key_id : String
  pub can_read : Bool
  pub can_write : Bool
  pub is_owner : Bool
  pub deleted : Bool

-- A row of storage_clusters, with the columns that the registry reads.
pub record Cluster : Type 0 where
  pub id : String
  pub name : String
  pub provider : String
  pub mode : String
  pub s3_endpoint : String
  pub admin_endpoint : String
  pub s3_region : String
  pub web_endpoint : String
  pub admin_token_enc : String
  pub system_s3_access_key_id : String
  pub system_s3_secret_enc : String
  pub status : String
  pub deleted : Bool

-- A row of org_storage_clusters.
pub record OrgClusterRow : Type 0 where
  pub org_id : String
  pub storage_cluster_id : String
  pub is_default : Bool

-- A row of api_tokens.
pub record ApiToken : Type 0 where
  pub id : String
  pub user_id : String
  pub org_id : String
  pub name : String
  pub token_hash : String
  pub secret_last_four : String
  pub expires_at : Option ℕ
  pub last_used_at : Option ℕ
  pub created_at : ℕ
  pub deleted : Bool

-- A row of policies with its bindings to roles.
pub record Policy : Type 0 where
  pub id : String
  pub org_id : String
  pub name : String
  pub template : String
  pub config : List (String × String)
  pub enabled : Bool
  pub roles : List String
  pub created_at : ℕ

-- A row of email_verifications.
pub record EmailVerification : Type 0 where
  pub user_id : String
  pub token_hash : String
  pub expires_at : ℕ
  pub consumed_at : Option ℕ

-- A row of signup_attempts; an empty ip is NULL.
pub record SignupAttempt : Type 0 where
  pub ip : String
  pub email : String
  pub created_at : ℕ

-- A row of backup_jobs; an empty schedule_id is NULL.
pub record BackupJob : Type 0 where
  pub id : String
  pub org_id : String
  pub schedule_id : String
  pub kind : String
  pub status : String
  pub path : String
  pub size_bytes : ℕ
  pub error : String
  pub offsite_uri : String
  pub created_at : ℕ
  pub finished_at : Option ℕ

-- storage.ProviderConfig, from which a provider is made (internal/storage/provider.go).
pub record ProviderConfig : Type 0 where
  pub kind : String
  pub s3_endpoint : String
  pub s3_region : String
  pub admin_url : String
  pub admin_token : String
  pub access_key_id : String
  pub secret_access_key : String
  pub s3_public_endpoint : String

-- The tables, and beside them what the process keeps in memory (the providers that the registry of
-- clusters has made) and how the database reads a text that is cast to a uuid: in its canonical
-- spelling, and not at all where it is no uuid. SQLite, where the casts are dropped, reads every text
-- as it is.
pub record Db : Type 0 where
  pub users : List User
  pub members : List Membership
  pub invitations : List InvitationRow
  pub sessions : List Session
  pub organizations : List Organization
  pub buckets : List Bucket
  pub trash : List TrashItem
  pub billing_customers : List BillingCustomer
  pub usage_reports : List UsageReport
  pub schedules : List BackupSchedule
  pub migrations : List MigrationJob
  pub usage : List UsageSnapshot
  pub traffic : List TrafficSnapshot
  pub access_keys : List AccessKey
  pub grants : List GrantRow
  pub clusters : List Cluster
  pub org_clusters : List OrgClusterRow
  pub api_tokens : List ApiToken
  pub policies : List Policy
  pub verifications : List EmailVerification
  pub signup_attempts : List SignupAttempt
  pub backup_jobs : List BackupJob
  pub cache : List (String × ProviderConfig)
  pub uuid : String → Option String

abbrev pub empty_db : Db
empty_db = record {
  users = [];
  members = [];
  invitations = [];
  sessions = [];
  organizations = [];
  buckets = [];
  trash = [];
  billing_customers = [];
  usage_reports = [];
  schedules = [];
  migrations = [];
  usage = [];
  traffic = [];
  access_keys = [];
  grants = [];
  clusters = [];
  org_clusters = [];
  api_tokens = [];
  policies = [];
  verifications = [];
  signup_attempts = [];
  backup_jobs = [];
  cache = [];
  uuid = λ id. some id;
}
