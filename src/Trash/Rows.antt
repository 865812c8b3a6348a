-- ===== src/Trash/Rows.antt =====
-- Restores with a backend and a database that answer (internal/service/trash.go).
use buktio.Base.{
  ◌≡◌, String, true, not, ◌&&◌, none, some, [], ◌∷◌, arith, str_eq, eq_iff, find, update_where,
}
use buktio.Runtime.Rows.{Bucket, TrashItem}
use buktio.Runtime.World.{World, AuditEvent, sink_emit, copy_object, delete_object, ok, text}
use buktio.Runtime.Errors.{Error, actions}
use buktio.Runtime.Facade.{Services, Context, target_of, subject_from, tenant}
use buktio.Audit.Frame.{audit-db, audit-ok}
use buktio.Audit.Frame.{audit-trail}
use buktio.Guard.{authorize, get_bucket, load_bucket}
use buktio.Storage.{Storage, provider_for_bucket, copy_to, delete_key, bucket_provider}
use buktio.Trash.Store.{with_id, live_trash, get_trash, mark_restored}
use buktio.Trash.{restore_object}

pub provided :
    (s : Services) (st : Storage) (ctx : Context) (bucket : String) (b : Bucket) (w : World)
    → w.faults ≡ []
    → find (λ (b : Bucket). str_eq b.id bucket && not b.deleted) w.db.buckets ≡ some b
    → b.project_id ≡ (tenant s ctx).project_id
    → st.unreachable w.trail b.cluster_id ≡ none
    → bucket_provider st s ctx bucket w ≡ (ok b, w)
unfolding bucket_provider provider_for_bucket load_bucket get_bucket actions
provided s st ctx bucket b w f there own reach =
    ground (arith, eq_iff b.project_id (tenant s ctx).project_id)

-- Where no statement fails and the backend answers: a restore by an actor with the permission
-- copies the object from its place to its key and deletes it there, in the bucket that the caller
-- names, whichever bucket it was trashed from, and marks the row.
pub restore_object-moves :
    (s : Services) (st : Storage) (ctx : Context) (bucket id : String) (t : TrashItem) (b : Bucket)
    (w : World)
    → w.faults ≡ []
    → (s.can (subject_from ctx).0 "create" (target_of "object" "")).allowed ≡ true
    → find (live_trash id) w.db.trash ≡ some t
    → find (λ (b : Bucket). str_eq b.id bucket && not b.deleted) w.db.buckets ≡ some b
    → b.project_id ≡ (tenant s ctx).project_id
    → st.unreachable w.trail b.cluster_id ≡ none
    → st.copy w.trail b.garage_global_alias t.trash_key t.original_key ≡ none
    → st.delete
        (copy_object b.garage_global_alias t.trash_key t.original_key ∷ w.trail)
        b.garage_global_alias
        t.trash_key
      ≡ none
    → ((restore_object s st ctx bucket id w).0 ≡ ok tt)
      × ((restore_object s st ctx bucket id w).1.db.trash
          ≡ update_where (with_id id) (λ t. record t { restored = true }) w.db.trash)
      × ((ev : AuditEvent) × ((restore_object s st ctx bucket id w).1.trail
            ≡ sink_emit ev
              ∷ delete_object b.garage_global_alias t.trash_key
              ∷ copy_object b.garage_global_alias t.trash_key t.original_key
              ∷ w.trail))
unfolding restore_object authorize get_trash mark_restored copy_to delete_key actions
restore_object-moves s st ctx bucket id t b w f allowed item there own reach copies deletes =
    let alias = b.garage_global_alias in
    let w' = record w {
      trail =
          delete_object alias t.trash_key ∷ copy_object alias t.trash_key t.original_key ∷ w.trail;
      db = record w.db {
        trash = update_where (with_id id) (λ t. record t { restored = true }) w.db.trash;
      };
    } in
    let (ev, sent) =
      audit-trail s ctx "object.restore" "bucket" bucket (some (("key", text t.original_key) ∷ []))
        Error w' in
    let found = provided s st ctx bucket b w f there own reach in
    (
      ground (
        arith,
        found,
        audit-ok s ctx "object.restore" "bucket" bucket (some (("key", text t.original_key) ∷ []))
            {E = Error} w',
      ),
      ground (
        arith,
        found,
        audit-db s ctx "object.restore" "bucket" bucket (some (("key", text t.original_key) ∷ []))
            Error w',
      ),
      (ev, ground (arith, found, sent)),
    )
