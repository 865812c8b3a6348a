-- ===== src/Trash/Store.antt =====
-- The statements on trashed objects (internal/repository/objects_trash.go).
use buktio.Base.{
  ℕ, String, Bool, true, false, not, ◌&&◌, List, ◌∷◌, ltb, leb, str_eq, select, find, any, take,
  update_where, if◌then◌else◌,
}
use buktio.Runtime.Rows.{Bucket, TrashItem}
use buktio.Runtime.World.{
  RepoErr, violation, Exec, ◌>>=◌, ◌>>◌, pure, raise, gets, statement, wrapped, put_db, draw,
}
use buktio.Runtime.Facade.{Services}
use buktio.Guard.{row_or_not_found}

abbrev pub with_id : String → TrashItem → Bool
with_id id t = str_eq t.id id

abbrev pub live_trash : String → TrashItem → Bool
live_trash id t = str_eq t.id id && not t.restored

-- `restored_at IS NULL AND purge_after < now()`
abbrev pub is_due : ℕ → TrashItem → Bool
is_due now t = not t.restored && ltb t.purge_after now

-- The bucket has a row (foreign key); the id is generated.
unfoldable pub insert_trash :
    Services → String → String → String → String → ℕ → ℕ → Exec RepoErr String
insert_trash s bucket org key trash_key size purge_after = wrapped "repository: insert trash: " (
    statement (λ w.
      (if not (any (λ (b : Bucket). str_eq b.id bucket) w.db.buckets) then raise violation else do
        n ← draw
        let id = s.lib.new_uuid n
        put_db (record w.db {
          trash =
              record {
                id = id;
                bucket_id = bucket;
                org_id = org;
                original_key = key;
                trash_key = trash_key;
                size_bytes = size;
                deleted_at = w.now;
                purge_after = purge_after;
                restored = false;
              }
              ∷ w.db.trash;
        })
        pure id)
        w))

-- Store.ListTrash
unfoldable pub trash_rows : String → Exec RepoErr (List TrashItem)
trash_rows bucket = wrapped "repository: list trash: " (
    statement (
      gets
        (λ w. select (λ (t : TrashItem). str_eq t.bucket_id bucket && not t.restored) w.db.trash)))

unfoldable pub get_trash : String → Exec RepoErr TrashItem
get_trash id = statement (λ w. row_or_not_found (find (live_trash id) w.db.trash) w)

unfoldable pub mark_restored : String → Exec RepoErr (Unit {0})
mark_restored id = statement (λ w.
    put_db
      (record w.db {
        trash = update_where (with_id id) (λ t. record t { restored = true }) w.db.trash;
      })
      w)

unfoldable pub delete_trash : String → Exec RepoErr (Unit {0})
delete_trash id =
    statement (λ w. put_db (record w.db { trash = select (λ t. not (with_id id t)) w.db.trash }) w)

unfoldable pub due_for_purge : ℕ → Exec RepoErr (List TrashItem)
due_for_purge limit =
    let n = if leb limit 0 then 200 else limit in
    statement (gets (λ w. take n (select (is_due w.now) w.db.trash)))
