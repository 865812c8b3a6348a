-- ===== src/Audit.antt =====
-- The audit log: appending a row to the hash chain of an organisation and verifying the chain
-- (internal/repository/audit.go), and the facade's `audit` (internal/service/service.go).
pub mod Chain
pub mod Append
pub mod Tamper
pub mod Frame
use buktio.Base.{
  ℕ, suc, ◌+◌, String, Bool, true, false, not, ◌&&◌, ◌||◌, any, Option, none, some, List, [], ◌∷◌,
  ◌++◌, ◌==◌, ◌<>◌, str_eq, if◌then◌else◌,
}
use buktio.Runtime.Rows.{Db, User, Organization}
use buktio.Runtime.World.{
  violation, Metadata, AuditRow, sink_emit, RepoErr, ok, err, Exec, ◌>>=◌, ◌>>◌, pure, gets,
  or_zero, ignore, statement, wrapped, call_out,
}
use buktio.Runtime.Facade.{Lib, Services, Context, subject_from, tenant}

-- The text that is hashed behind the previous hash, as `fmt.Fprintf` lays it out.
unfoldable pub canonical_text : Lib → AuditRow → String
canonical_text lib r =
    lib.itoa r.id
    <> "|"
    <> r.org_id
    <> "|"
    <> r.actor_user_id
    <> "|"
    <> r.actor_type
    <> "|"
    <> r.action
    <> "|"
    <> r.target_type
    <> "|"
    <> r.target_id
    <> "|"
    <> r.metadata
    <> "|"
    <> lib.format_rfc3339_nano r.created_at

-- auditCanonical
unfoldable pub audit_canonical : Lib → String → AuditRow → String
audit_canonical lib prev r = lib.sha256 (prev <> canonical_text lib r)

-- A row of the chain of an organisation: `org_id` matches, an empty one is NULL, and the row
-- carries a hash.
unfoldable pub in_chain : String → AuditRow → Bool
in_chain org r = str_eq r.org_id org && not (str_eq r.row_hash "")

-- `ORDER BY id DESC LIMIT 1`, with the empty hash where there is no row.
unfoldable pub last_hash_from : String → String → List AuditRow → String
last_hash_from org h [] = h
last_hash_from org h (r ∷ rs) = last_hash_from org (if in_chain org r then r.row_hash else h) rs

-- `UPDATE audit_events SET row_hash=$2 WHERE id=$1`
unfoldable pub set_row_hash : ℕ → String → List AuditRow → List AuditRow
set_row_hash id h [] = []
set_row_hash id h (r ∷ rs) =
    (if r.id == id then record r { row_hash = h } else r) ∷ set_row_hash id h rs

-- A transaction: an error rolls back what it wrote; an error at its end is taken for one before the
-- commit.
unfoldable pub transaction : {A : Type 0} → Exec RepoErr A → Exec RepoErr A
transaction m w =
    let p = m w in
    elim p.0 [
      | ok a ↦ (ok a, p.1)
      | err e ↦ (err e, record p.1 { db = w.db; audit_rows = w.audit_rows })
    ]

-- An id that is empty, which is NULL, or the id of a row.
abbrev pub refers : {A : Type 0} → (A → String) → String → List A → Bool
refers key id rows = str_eq id "" || any (λ a. str_eq (key a) id) rows

-- What the schema asks of a row: its organisation and its actor have rows, and the kind of the actor
-- is one of the enumeration.
unfoldable pub is_recordable : Db → AuditRow → Bool
is_recordable db r =
    refers (λ (o : Organization). o.id) r.org_id db.organizations
    && refers (λ (u : User). u.id) r.actor_user_id db.users
    && (str_eq r.actor_type "user" || str_eq r.actor_type "system" || str_eq r.actor_type "api")

unfoldable pub insert_row : AuditRow → Exec RepoErr AuditRow
insert_row r w =
    let row = record r { id = suc w.draws; created_at = w.now } in
    if is_recordable w.db row
    then (ok row, record w { audit_rows = w.audit_rows ++ row ∷ []; draws = suc w.draws })
    else (err violation, w)

unfoldable pub store_hash : ℕ → String → Exec RepoErr (Unit {0})
store_hash id h w = (ok tt, record w { audit_rows = set_row_hash id h w.audit_rows })

abbrev pub metadata_text : Lib → Option Metadata → String
metadata_text lib none = "{}"
metadata_text lib (some m) = elim (lib.marshal m) [ some t ↦ t | none ↦ "{}" ]

pub record AuditVerifyResult : Type 0 where
  pub checked : ℕ
  pub ok : Bool
  pub broken_id : ℕ
  pub broken_why : String

-- The previous row's hash, where there is a row, is not the one that this row names.
unfoldable pub is_unlinked : Option String → String → Bool
is_unlinked none prev = false
is_unlinked (some h) prev = not (str_eq prev h)

-- The loop of VerifyAuditChain: `expected_prev` is the hash of the row before, if there is one.
unfoldable pub verify_from : Lib → String → Option String → ℕ → List AuditRow → AuditVerifyResult
unfolding in_chain is_unlinked
verify_from lib org expected_prev checked [] = record {
  checked = checked;
  ok = true;
  broken_id = 0;
  broken_why = "";
}
verify_from lib org expected_prev checked (r ∷ rs) =
    let next = verify_from lib org (some r.row_hash) (checked + 1) rs in
    let skip = verify_from lib org expected_prev checked rs in
    if not (in_chain org r)
    then skip
    else if is_unlinked expected_prev r.prev_hash
    then record {
      checked = checked;
      ok = false;
      broken_id = r.id;
      broken_why = "prev_hash mismatch";
    }
    else if not (str_eq (audit_canonical lib r.prev_hash (record r { org_id = org })) r.row_hash)
    then record {
      checked = checked;
      ok = false;
      broken_id = r.id;
      broken_why = "row_hash mismatch";
    }
    else next

module _ (s : Services) where
  -- VerifyAuditChain
  unfoldable pub verify_audit_chain : String → Exec RepoErr AuditVerifyResult
  unfolding verify_from
  verify_audit_chain org =
      wrapped "repository: audit verify: "
        (statement (gets (λ w. verify_from s.lib org none 0 w.audit_rows)))

  -- `pg_advisory_xact_lock`, which SQLite does without.
  unfoldable pub lock_chain : Exec RepoErr (Unit {0})
  lock_chain =
      if s.is_sqlite then pure tt else wrapped "repository: audit lock: " (statement (pure tt))

  -- WriteAudit. The address of the request is always "" (service.go).
  unfoldable pub write_audit :
      String
      → String
      → String
      → String
      → String
      → String
      → Option Metadata
      → Exec RepoErr (Unit {0})
  write_audit org actor actor_type action target_type target_id metadata = transaction (do
    wrapped "repository: audit begin: " (statement (pure tt))
    lock_chain
    prev ← or_zero "" (statement (gets (λ w. last_hash_from org "" w.audit_rows)))
    row ← wrapped "repository: audit insert: " (
        statement (
          insert_row (record {
            id = 0;
            org_id = org;
            actor_user_id = actor;
            actor_type = actor_type;
            action = action;
            target_type = target_type;
            target_id = target_id;
            metadata = s.lib.jsonb_text (metadata_text s.lib metadata);
            created_at = 0;
            prev_hash = prev;
            row_hash = "";
          })))
    wrapped "repository: audit hash: "
        (statement (store_hash row.id (audit_canonical s.lib prev row)))
    statement (pure tt))

  -- The facade's `audit`: the row is best effort, and the sink always has the event.
  unfoldable pub audit :
      {E : Type 0} → Context → String → String → String → Option Metadata → Exec E (Unit {0})
  audit ctx action target_type target_id metadata = do
    let (subj, attached) = subject_from ctx
    let by_user = attached && not (str_eq subj.user_id "")
    let actor = if by_user then subj.user_id else ""
    let actor_type = if by_user then "user" else "system"
    let org = (tenant s ctx).org_id
    ignore (write_audit org actor actor_type action target_type target_id metadata)
    call_out (
        sink_emit (record {
          org_id = org;
          actor_user_id = actor;
          actor_type = actor_type;
          action = action;
          target_type = target_type;
          target_id = target_id;
          metadata = elim metadata [ none ↦ [] | some m ↦ m ];
        }))
