-- ===== src/Audit/Append.antt =====
-- Appending to the audit log (WriteAudit of internal/repository/audit.go).
use buktio.Base.{
  ℕ, suc, ◌+◌, ◌≤◌, ◌≡◌, ◌≢◌, refl, inl, String, true, Option, none, List, [], ◌∷◌, ◌++◌, arith,
  eq_iff, All-append,
}
use buktio.Runtime.World.{World, Metadata, AuditRow, ok}
use buktio.Runtime.Errors.{actions}
use buktio.Runtime.Facade.{Services}
use buktio.Audit.{
  canonical_text, audit_canonical, in_chain, last_hash_from, metadata_text, transaction,
  is_recordable, insert_row, store_hash, lock_chain, write_audit, verify_from,
}
use buktio.Audit.Tamper.{hashed_text}
use buktio.Audit.Chain.{AllBelow, set_row_hash_new, verify_append}

AllBelow-suc : (n : ℕ) (rows : List AuditRow) → AllBelow n rows → AllBelow (suc n) rows
AllBelow-suc n [] b = tt
AllBelow-suc n (r ∷ rows) b = (omega arith, AllBelow-suc n rows b.1)

module _ (s : Services) (org actor actor_type action target_type target_id : String)
    (metadata : Option Metadata) where
  -- The row that an append inserts, before its hash is stored.
  abbrev pub new_row : World → AuditRow
  new_row w = record {
    id = suc w.draws;
    org_id = org;
    actor_user_id = actor;
    actor_type = actor_type;
    action = action;
    target_type = target_type;
    target_id = target_id;
    metadata = s.lib.jsonb_text (metadata_text s.lib metadata);
    created_at = w.now;
    prev_hash = last_hash_from org "" w.audit_rows;
    row_hash = "";
  }

  abbrev pub hashed_row : World → AuditRow
  hashed_row w = let r = new_row w in record r { row_hash = audit_canonical s.lib r.prev_hash r }

  hashed_row-in_chain :
      (w : World) → ((x : String) → s.lib.sha256 x ≢ "") → in_chain org (hashed_row w) ≡ true
  unfolding in_chain audit_canonical
  hashed_row-in_chain w digest = ground (
    arith,
    eq_iff org org,
    eq_iff (hashed_row w).row_hash "",
    digest (hashed_text s.lib org (new_row w)),
  )

  -- Where no statement fails, an append of a row that the schema takes adds one row and nothing
  -- else.
  pub write_audit_lem :
      (w : World)
      → w.faults ≡ []
      → is_recordable w.db (new_row w) ≡ true
      → AllBelow w.draws w.audit_rows
      → write_audit s org actor actor_type action target_type target_id metadata w
        ≡ (ok tt, record w { audit_rows = w.audit_rows ++ hashed_row w ∷ []; draws = suc w.draws })
  unfolding write_audit transaction insert_row store_hash lock_chain actions
  write_audit_lem w h k b =
      ground (arith, set_row_hash_new w.draws (hashed_row w).row_hash w.audit_rows (new_row w) b)

  -- With a digest that is never empty: where no statement fails, the organisation and the actor are
  -- empty or have a row, the kind of the actor is of the enumeration, and the rows are numbered
  -- below the next number, an append to a chain that verifies succeeds, the longer chain verifies
  -- with one row more checked, and the rows are still numbered below the next number.
  pub write_audit-verifies :
      (w : World)
      → ((x : String) → s.lib.sha256 x ≢ "")
      → w.faults ≡ []
      → is_recordable w.db (new_row w) ≡ true
      → AllBelow w.draws w.audit_rows
      → (verify_from s.lib org none 0 w.audit_rows).ok ≡ true
      → let p = write_audit s org actor actor_type action target_type target_id metadata w in
        (p.0 ≡ ok tt)
        × ((verify_from s.lib org none 0 p.1.audit_rows).ok ≡ true)
        × ((verify_from s.lib org none 0 p.1.audit_rows).checked
            ≡ (verify_from s.lib org none 0 w.audit_rows).checked + 1)
        × AllBelow p.1.draws p.1.audit_rows
  unfolding audit_canonical canonical_text
  write_audit-verifies w digest h k b v =
      let appended =
        verify_append s.lib org w.audit_rows none "" 0 (hashed_row w) (inl refl) v
          (hashed_row-in_chain w digest) refl refl in
      rw (write_audit_lem w h k b) (
        refl,
        appended.0,
        appended.1,
        All-append (λ r. r.id ≤ suc w.draws) w.audit_rows (hashed_row w ∷ [])
            (AllBelow-suc w.draws w.audit_rows b) (omega arith),
      )
