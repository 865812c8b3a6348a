-- ===== src/Audit/Frame.antt =====
-- The facade's `audit` (internal/service/service.go) as its callers see it.
use buktio.Base.{
  ℕ, suc, ◌≡◌, refl, ap, String, Bool, true, false, Option, none, some, List, [], ◌∷◌, ◌++◌, str_eq,
  if◌then◌else◌, ◌&&◌, not,
}
use buktio.Runtime.Rows.{Db}
use buktio.Runtime.World.{
  World, Metadata, AuditRow, AuditEvent, Call, sink_emit, violation, RepoErr, Result, ok, err, Exec,
}
use buktio.Runtime.Errors.{actions}
use buktio.Runtime.Facade.{Services, Context, tenant, subject_from}
use buktio.Runtime.Holds.{Holds, holds_rules}
use buktio.Audit.{
  transaction, is_recordable, insert_row, store_hash, lock_chain, write_audit, audit,
}

-- The trail and the database as they were.
abbrev IsSame : List Call → Db → List Call → Db → Type 0
IsSame trail db t d = (t ≡ trail) × (d ≡ db)

module _ {trail : List Call} {db : Db} where
  rolled_back :
      {A : Type 0} (r : Result RepoErr A) (v w : World)
      → IsSame trail db v.trail v.db
      → IsSame trail db w.trail w.db
      → let u = (transaction (λ _. (r, v)) w).1 in IsSame trail db u.trail u.db
  unfolding transaction
  rolled_back (ok a) v w h k = h
  rolled_back (err e) v w h k = (h.0, k.1)

  Holds-transaction :
      {A : Type 0} (m : Exec RepoErr A)
      → Holds (IsSame trail db) m
      → Holds (IsSame trail db) (transaction m)
  unfolding transaction
  Holds-transaction m km = record {
    at = λ w h. unfold rolled_back in rolled_back (m w).0 (m w).1 w (km.at w h) h;
  }

  inserted :
      (recordable : Bool) (r : AuditRow) (w : World)
      → IsSame trail db w.trail w.db
      → let row = record r { id = suc w.draws; created_at = w.now } in
        let u : Result RepoErr AuditRow × World =
          (if recordable
            then (ok row, record w { audit_rows = w.audit_rows ++ row ∷ []; draws = suc w.draws })
            else (err violation, w)) in
        IsSame trail db u.1.trail u.1.db
  inserted true r w h = h
  inserted false r w h = h

  insert_row-Holds : (r : AuditRow) → Holds (IsSame trail db) (insert_row r)
  unfolding insert_row
  insert_row-Holds r = record {
    at = λ w h.
        inserted (is_recordable w.db (record r { id = suc w.draws; created_at = w.now })) r w h;
  }

  store_hash-Holds : (id : ℕ) (h : String) → Holds (IsSame trail db) (store_hash id h)
  unfolding store_hash
  store_hash-Holds id h = record { at = λ w k. k }

  lock_chain-Holds : (s : Services) → Holds (IsSame trail db) (lock_chain s)
  unfolding lock_chain
  lock_chain-Holds s = search holds_rules

  write_audit-Holds :
      (s : Services) (org actor actor_type action target_type target_id : String)
      (metadata : Option Metadata)
      → Holds
          (IsSame trail db)
          (write_audit s org actor actor_type action target_type target_id metadata)
  unfolding write_audit
  write_audit-Holds s org actor actor_type action target_type target_id metadata =
      search (holds_rules, Holds-transaction, insert_row-Holds, store_hash-Holds, lock_chain-Holds)
        depth 9

module _ (s : Services) (ctx : Context) (action target_type target_id : String)
    (metadata : Option Metadata) where
  pub audit-trail :
      (E : Type 0) (w : World)
      → (ev : AuditEvent) × ((audit s {E = E} ctx action target_type target_id metadata w).1.trail
          ≡ sink_emit ev ∷ w.trail)
  unfolding audit actions
  audit-trail E w =
      let (subj, attached) = subject_from ctx in
      let by_user = attached && not (str_eq subj.user_id "") in
      let actor = if by_user then subj.user_id else "" in
      let actor_type = if by_user then "user" else "system" in
      let org = (tenant s ctx).org_id in
      (
        record {
          org_id = org;
          actor_user_id = actor;
          actor_type = actor_type;
          action = action;
          target_type = target_type;
          target_id = target_id;
          metadata = elim metadata [ none ↦ [] | some m ↦ m ];
        },
        ap (λ t. sink_emit _ ∷ t)
            ((write_audit-Holds {trail = w.trail} {db = w.db} s org actor actor_type action
                target_type target_id metadata).at
              w (refl, refl)).0,
      )

  pub audit-ok :
      {E : Type 0} (w : World)
      → (audit s {E = E} ctx action target_type target_id metadata w).0 ≡ ok tt
  unfolding audit actions
  audit-ok w = refl

  pub audit-db :
      (E : Type 0) (w : World)
      → (audit s {E = E} ctx action target_type target_id metadata w).1.db ≡ w.db
  unfolding audit actions
  audit-db E w =
      let (subj, attached) = subject_from ctx in
      let by_user = attached && not (str_eq subj.user_id "") in
      ((write_audit-Holds {trail = w.trail} {db = w.db} s (tenant s ctx).org_id
          (if by_user then subj.user_id else "") (if by_user then "user" else "system") action
          target_type target_id metadata).at
        w (refl, refl)).1

  -- A property that an event of the sink does not break is kept.
  pub audit-Holds :
      {E : Type 0} {P : List Call → Db → Type 0}
      → ((ev : AuditEvent) (t : List Call) (d : Db) → P t d → P (sink_emit ev ∷ t) d)
      → Holds P (audit s {E = E} ctx action target_type target_id metadata)
  audit-Holds {E = E} {P = P} sink = record {
    at = λ w h. let (ev, e) = audit-trail E w in rw (e, audit-db E w) (sink ev w.trail w.db h);
  }
