-- ===== src/Tests/Storage.antt =====
-- The theorems on trashed objects, applied.
use buktio.Base.{◌≡◌, refl, true, false, none, [], ◌∷◌, update_where, arith}
use buktio.Runtime.World.{
  AuditEvent, sink_emit, fire_webhook, head_object, copy_object, delete_object, ok,
}
use buktio.Runtime.Facade.{tenant}
use buktio.Storage.{Storage}
use buktio.Clusters.Registry.{garage_capabilities}
use buktio.Trash.Store.{with_id}
use buktio.Trash.{trash_objects, restore_object}
use buktio.Objects.{move_object, delete_objects_of}
use buktio.Trash.Moves.{is_safe, moves-is_safe}
use buktio.Trash.Rows.{restore_object-moves}
use buktio.Trash.Deletes.{places, trash_objects-places}
use buktio.Tests.{services, ctx, world, bucket, trashed}

-- A backend that performs every call.
abbrev pub backend : Storage
backend = record {
  unreachable = λ trail cluster. none;
  head = λ trail alias key. ok 10;
  copy = λ trail alias src dst. none;
  delete = λ trail alias key. none;
  delete_many = λ trail alias keys. none;
  list = λ trail alias input.
      ok (record { objects = []; common_prefixes = []; next_token = ""; is_truncated = false });
  put = λ trail alias key size. none;
  get = λ trail alias key. ok (record { key = key; size = 10; is_prefix = false });
  presign = λ alias key method expires. ok key;
  capabilities = λ cluster. garage_capabilities;
  create_bucket = λ trail cluster alias. ok alias;
  drop_bucket = λ trail cluster id. none;
  grant_key = λ trail cluster id key perms. none;
  revoke_key = λ trail cluster id key. none;
  set_quota = λ trail cluster id size objects. none;
  set_visibility = λ trail cluster id public index error_doc. none;
  usage = λ trail cluster id. ok (0, 0);
  create_key = λ trail name b. ok ("GK1", "secret");
  delete_key = λ trail key. none;
}

moves-is_safe_example :
    (is_safe backend (trash_objects services backend ctx bucket ("a" ∷ "b" ∷ []) world).1.trail
      ≡ true)
    × (is_safe backend
          (delete_objects_of services backend ctx "b1" ("a" ∷ "b" ∷ []) false world).1.trail
        ≡ true)
    × (is_safe backend (restore_object services backend ctx "b1" "t1" world).1.trail ≡ true)
    × (is_safe backend (move_object services backend ctx "b1" "a" "c" world).1.trail ≡ true)
moves-is_safe_example =
    moves-is_safe services backend ctx bucket ("a" ∷ "b" ∷ []) "b1" "t1" "a" "c" world refl

trash_objects-places_example :
    let p = delete_objects_of services backend ctx "b1" ("a" ∷ "b" ∷ []) false world in
    (p.0 ≡ ok tt)
    × (places p.1.db.trash
        ≡ ("b", ".trash/1/b") ∷ ("a", ".trash/1/a") ∷ ("cat.jpg", ".trash/1/cat.jpg") ∷ [])
    × ((ev : AuditEvent) × (p.1.trail
          ≡ fire_webhook "b1" "object.deleted" "b"
            ∷ fire_webhook "b1" "object.deleted" "a"
            ∷ sink_emit ev
            ∷ delete_object "photos" "b"
            ∷ copy_object "photos" "b" ".trash/1/b"
            ∷ head_object "photos" "b"
            ∷ delete_object "photos" "a"
            ∷ copy_object "photos" "a" ".trash/1/a"
            ∷ head_object "photos" "a"
            ∷ []))
unfolding tenant
trash_objects-places_example =
    trash_objects-places services backend ctx "b1" bucket ("a" ∷ "b" ∷ []) world (λ t a k d. refl)
      (λ t a k. refl) refl refl refl refl refl (omega arith)

restore_object-moves_example :
    ((restore_object services backend ctx "b1" "t1" world).0 ≡ ok tt)
    × ((restore_object services backend ctx "b1" "t1" world).1.db.trash
        ≡ update_where (with_id "t1") (λ t. record t { restored = true }) world.db.trash)
    × ((ev : AuditEvent) × ((restore_object services backend ctx "b1" "t1" world).1.trail
          ≡ sink_emit ev
            ∷ delete_object "photos" ".trash/1/cat.jpg"
            ∷ copy_object "photos" ".trash/1/cat.jpg" "cat.jpg"
            ∷ []))
unfolding tenant
restore_object-moves_example =
    restore_object-moves services backend ctx "b1" "t1" trashed bucket world refl refl refl refl
      refl refl refl refl
