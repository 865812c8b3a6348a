-- ===== src/Trash.antt =====
-- Trashed objects: a delete moves an object under the prefix `.trash/`, from where it is restored
-- or purged (internal/service/trash.go).
pub mod Store
pub mod Moves
pub mod Rows
pub mod Deletes
use buktio.Base.{
  ℕ, ◌+◌, ◌*◌, String, ◌<>◌, Bool, Option, none, some, List, [], ◌∷◌, length, str_eq, if◌then◌else◌,
}
use buktio.Runtime.Rows.{Bucket, TrashItem}
use buktio.Runtime.World.{
  World, text, number, RepoErr, Exec, ◌>>=◌, ◌>>◌, pure, raise, gets, attempt, or_zero, ignore,
}
use buktio.Runtime.Errors.{Error, mapped}
use buktio.Runtime.Facade.{Services, Context, target_of}
use buktio.Audit.{audit}
use buktio.Guard.{authorize, get_bucket}
use buktio.Storage.{
  Storage, or_storage_err, provider_for_bucket, head_size, copy_to, delete_key, or_unreachable,
  bucket_provider,
}
use buktio.Trash.Store.{
  insert_trash, trash_rows, get_trash, mark_restored, delete_trash, due_for_purge,
}

-- Seven days, in nanoseconds.
abbrev pub trash_retention : ℕ
trash_retention = 7 * 24 * 60 * 60 * 1000000000

abbrev pub trash_prefix : String
trash_prefix = ".trash/"

-- TrashDTO
pub record TrashDto : Type 0 where
  pub id : String
  pub key : String
  pub size_bytes : ℕ
  pub deleted_at : ℕ
  pub purge_after : ℕ

abbrev pub trash_dtos : List TrashItem → List TrashDto
trash_dtos [] = []
trash_dtos (t ∷ ts) =
    record {
      id = t.id;
      key = t.original_key;
      size_bytes = t.size_bytes;
      deleted_at = t.deleted_at;
      purge_after = t.purge_after;
    }
    ∷ trash_dtos ts

module _ (s : Services) (st : Storage) where
  abbrev pub trash_key_of : ℕ → String → String
  trash_key_of now key = trash_prefix <> s.lib.itoa now <> "/" <> key

  -- The body of the loop of trashObjects, at the time `now` of the operation.
  unfoldable pub trash_object : ℕ → Bucket → String → Exec Error (Unit {0})
  trash_object now b key = do
    size ← head_size st b.garage_global_alias key
    copied ← copy_to st b.garage_global_alias key (trash_key_of now key)
    or_storage_err copied
    removed ← delete_key st b.garage_global_alias key
    or_storage_err removed
    _ ← mapped (
        insert_trash s b.id b.org_id key (trash_key_of now key)
          (elim size [ none ↦ 0 | some n ↦ n ]) (now + trash_retention))
    pure tt

  unfoldable pub trash_each : ℕ → Bucket → List String → Exec Error (Unit {0})
  trash_each now b [] = pure tt
  trash_each now b (key ∷ keys) = do trash_object now b key; trash_each now b keys

  module _ (ctx : Context) where
    unfoldable pub trash_objects : Bucket → List String → Exec Error (Unit {0})
    trash_objects b keys = do
      failure ← provider_for_bucket st b
      or_unreachable st failure
      now ← gets (λ w. w.now)
      trash_each now b keys
      audit s ctx "object.trash" "bucket" b.id (some (("count", number (length keys)) ∷ []))

    unfoldable pub list_trash : String → Exec Error (List TrashDto)
    list_trash bucket = do items ← mapped (trash_rows bucket); pure (trash_dtos items)

    unfoldable pub restore_object : String → String → Exec Error (Unit {0})
    restore_object bucket id = do
      authorize s ctx "create" (target_of "object" "")
      t ← mapped (get_trash id)
      b ← bucket_provider st s ctx bucket
      copied ← copy_to st b.garage_global_alias t.trash_key t.original_key
      or_storage_err copied
      removed ← delete_key st b.garage_global_alias t.trash_key
      or_storage_err removed
      mapped (mark_restored id)
      audit s ctx "object.restore" "bucket" bucket (some (("key", text t.original_key) ∷ []))

    unfoldable pub purge_object : String → String → Exec Error (Unit {0})
    purge_object bucket id = do
      authorize s ctx "delete" (target_of "object" "")
      t ← mapped (get_trash id)
      b ← bucket_provider st s ctx bucket
      removed ← delete_key st b.garage_global_alias t.trash_key
      or_storage_err removed
      mapped (delete_trash id)
      audit s ctx "object.purge" "bucket" bucket (some (("key", text t.original_key) ∷ []))

-- The object of a due item, where its bucket and its cluster are there.
unfoldable pub purge_from : Storage → TrashItem → Option Bucket → Exec Error (Unit {0})
purge_from st t none = pure tt
purge_from st t (some b) = do
  failure ← provider_for_bucket st b
  elim failure [
    | some msg ↦ pure tt
    | none ↦ do _ ← delete_key st b.garage_global_alias t.trash_key; pure tt
  ]

unfoldable pub purge_each : Storage → List TrashItem → Exec Error (Unit {0})
purge_each st [] = pure tt
purge_each st (t ∷ ts) = do
  b ← attempt (get_bucket t.bucket_id)
  purge_from st t b
  ignore (delete_trash t.id)
  purge_each st ts

unfoldable pub purge_due_trash : Storage → Exec Error (Unit {0})
purge_due_trash st = do due ← or_zero [] (due_for_purge 200); purge_each st due
