-- ===== src/Lib.antt =====
-- Verification of the core services of buktio, a control plane for S3-compatible object storage.
--
-- The program is a facade of services (internal/service) over a repository of SQL statements
-- (internal/repository), with enforcers of permissions and plans (internal/authz,
-- internal/entitlements), storage backends (internal/storage) and a payment processor
-- (internal/billing) behind interfaces. An operation checks the permission of the subject that its
-- context carries, runs statements and calls one after the other, returns early at the first error
-- that it does not ignore, and writes an audit row.
--
-- Files and code:
--   Base        booleans, lists and integers that the other files share; int64 wraps around.
--   Runtime     the world of one service call. Rows: the tables. World: the state (database, audit
--               rows, clock, trail of outgoing calls) and the actions on it, with an `Exec` action
--               for a Go function that returns a value and an error. Errors: service/errors.go.
--               Facade: service/service.go, service/tenant_context.go, authz, entitlements.
--               Holds: proof rules for invariants of the actions.
--   Audit       repository/audit.go and `audit` of service/service.go: the hash chain.
--   Guard       service/guard.go and the gates of policies.go and tenants.go.
--   Validate    service/validate.go: regular expressions as runs of character classes.
--   Accounts    service/auth.go, service/signup.go, repository/users.go, signup.go. Tokens:
--               service/api_tokens.go, repository/api_tokens.go.
--   Members     service/members.go, service/auth.go (newSession), repository/members.go, users.go.
--   Tenants     service/tenants.go (lifecycle), repository/orgs.go, TrafficByOrg of billing.go.
--               Placement: service/tenant_cluster.go.
--   Policies    service/policies.go and repository/policies.go.
--   Quota       quotaGuard and orgStorageCap of service/guard.go.
--   Billing     service/billing.go and repository/billing.go.
--   Storage     providers as the services see them, and mapStorageErr of service/errors.go.
--   Clusters    service/clusters.go. Store: repository/clusters.go, org_clusters.go. Registry:
--               internal/cluster/registry.go, storage/registry.go and the backends' capabilities.
--   Metering    emit of service/service.go, fireWebhook of service/webhooks.go, as calls.
--   Buckets     service/buckets.go and repository/buckets.go.
--   Keys        service/keys.go and repository/keys.go.
--   Objects     service/objects.go.
--   Trash       service/trash.go and repository/objects_trash.go.
--   Backups     service/backup_scheduler.go, repository/backup_schedules.go. Jobs: repository/backups.go.
--               Runs: service/backups.go.
--   Migrations  service/migrations.go, repository/migrations_repo.go. Worker: runMigration.
--   Secret      internal/secret: the envelope, generated secrets and the master key.
--   Proxy       proxy/proxy.go and proxy/parse.go: traffic counters by access key and bucket.
--   Tests       a small installation on which the theorems are applied.
--
-- Conventions. The field `faults` of a world says for each coming statement whether it fails, so
-- that a theorem without a hypothesis on it holds whatever statement fails; it is past its end
-- where no statement fails. A constraint of the schema that the code relies on (a foreign key, a
-- unique index) makes its statement fail. Statements of other requests do not run between those of
-- one call. A Go string is a text, a byte string and a hash too; a time is a number of nanoseconds.
-- Sums that the code computes in int64 wrap around where the model says add64 or mul64; counts of
-- rows are taken as unbounded. Loops are recursions on the list that they run over, and emptyBucket
-- is one on its 1000 rounds. The page loop of a migration runs on fuel, one unit for a page of the
-- source: as many as the source has pages are enough. The registry of clusters is always there, and
-- its map stands beside the tables (`cache`). The tables of projects and of the installation's
-- steps are left out, and the foreign keys to them; a statement on them can fail, and is otherwise
-- without effect. `Db.uuid` is how the database reads a text that is cast to a uuid, for the member
-- that a role is changed of or that is removed and for the cluster that is looked up, counted or
-- deleted; any other id that a statement casts is taken as the database spells it, and a request
-- that spells it otherwise is not modelled. The int64 counters of an import and of the proxy are taken as unbounded. A
-- reverse proxy that panics, after which nothing is counted, is left out. An error at the end of a
-- transaction is taken for a rollback, which a lost connection at the commit does not warrant.
--
-- Parameters: the functions of Go's standard library and of internal/auth (Runtime.Facade.Lib), the
-- enforcers of the edition (Services), the payment processor (Billing.Provider), the storage
-- backends (Storage.Storage), the network of a new cluster (Clusters.Probe), the provisioner of
-- clusters (Tenants.Placement.Provisioner), the sealer of the registry
-- (Clusters.Registry.Registry), the source of an import (Migrations.Importer,
-- Migrations.Worker.Source), the machine that dumps and stores backups (Backups.Runs.Machine), and
-- the ciphers and files of the operating system (Secret.Platform). What is assumed of them stands
-- with each theorem.
--
-- Not modelled: HTTP handlers, the web UI, configuration and wiring, SQL text and row-level
-- security, the HTTP clients of the backends, CORS and lifecycle rules, object versions,
-- replication, nodes, branding, SCIM tokens, the delivery of webhooks and of metering events, and
-- single sign-on.
pub mod Base
pub mod Runtime
pub mod Secret
pub mod Audit
pub mod Guard
pub mod Validate
pub mod Keys
pub mod Members
pub mod Accounts
pub mod Tenants
pub mod Quota
pub mod Billing
pub mod Clusters
pub mod Metering
pub mod Storage
pub mod Buckets
pub mod Trash
pub mod Objects
pub mod Backups
pub mod Migrations
pub mod Policies
pub mod Proxy
pub mod Tests
