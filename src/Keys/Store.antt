-- ===== src/Keys/Store.antt =====
-- The statements on access keys and on their grants (internal/repository/keys.go).
use buktio.Base.{
  ℕ, String, Bool, true, false, not, ◌&&◌, none, some, List, [], ◌∷◌, ◌++◌, str_eq, length, select,
  find, any, update_where, if◌then◌else◌,
}
use buktio.Runtime.Rows.{Bucket, AccessKey, GrantRow}
use buktio.Runtime.World.{
  RepoErr, violation, Exec, ◌>>=◌, ◌>>◌, pure, raise, gets, statement, wrapped, put_db, draw,
}
use buktio.Runtime.Facade.{Services}
use buktio.Guard.{row_or_not_found}

abbrev pub live_key : String → AccessKey → Bool
live_key id k = str_eq k.id id && not k.deleted

-- The unique index of live keys: the backend's id in the cluster.
abbrev pub same_key : AccessKey → AccessKey → Bool
same_key k o =
    not o.deleted
    && str_eq o.cluster_id k.cluster_id
    && str_eq o.garage_access_key_id k.garage_access_key_id

-- Store.CreateAccessKey
unfoldable pub insert_access_key : Services → AccessKey → String → Exec RepoErr String
insert_access_key s k secret_hash = wrapped "repository: create access key: " (
    statement (λ w.
      (if any (same_key k) w.db.access_keys then raise violation else do
        n ← draw
        let id = s.lib.new_uuid n
        put_db (record w.db {
          access_keys =
              record k { id = id; secret_hash = secret_hash; created_at = w.now; deleted = false }
              ∷ w.db.access_keys;
        })
        pure id)
        w))

-- Store.ListAccessKeys
unfoldable pub access_key_rows : String → Exec RepoErr (List AccessKey)
access_key_rows project = wrapped "repository: list keys: " (
    statement (
      gets (λ w.
        select (λ (k : AccessKey). str_eq k.project_id project && not k.deleted) w.db.access_keys)))

-- Store.GetAccessKey
unfoldable pub access_key_row : String → Exec RepoErr AccessKey
access_key_row id = statement (λ w. row_or_not_found (find (live_key id) w.db.access_keys) w)

unfoldable pub soft_delete_access_key : String → Exec RepoErr (Unit {0})
soft_delete_access_key id = wrapped "repository: soft delete key: " (
    statement (λ w.
      put_db
        (record w.db {
          access_keys =
              update_where (live_key id) (λ (k : AccessKey). record k { deleted = true })
                w.db.access_keys;
        })
        w))

unfoldable pub count_access_keys : String → Exec RepoErr ℕ
count_access_keys project = statement (
    gets (λ w.
      length (
        select (λ (k : AccessKey). str_eq k.project_id project && not k.deleted) w.db.access_keys)))

abbrev pub live_grant : String → String → GrantRow → Bool
live_grant bucket key g = str_eq g.bucket_id bucket && str_eq g.access_key_id key && not g.deleted

-- `ON CONFLICT (bucket_id, access_key_id) WHERE deleted_at IS NULL DO UPDATE`
abbrev pub granted : GrantRow → List GrantRow → List GrantRow
granted g rows =
    if any (live_grant g.bucket_id g.access_key_id) rows
    then update_where (live_grant g.bucket_id g.access_key_id)
        (λ (o : GrantRow). record o {
          can_read = g.can_read;
          can_write = g.can_write;
          is_owner = g.is_owner;
        })
        rows
    else rows ++ g ∷ []

-- The row refers to a bucket and to a key.
unfoldable pub upsert_grant : GrantRow → Exec RepoErr (Unit {0})
upsert_grant g = wrapped "repository: upsert grant: " (
    statement (λ w.
      (if not (
            any (λ (b : Bucket). str_eq b.id g.bucket_id) w.db.buckets
            && any (λ (k : AccessKey). str_eq k.id g.access_key_id) w.db.access_keys)
          then raise violation
          else put_db (record w.db { grants = granted g w.db.grants }))
        w))

unfoldable pub delete_grant : String → String → Exec RepoErr (Unit {0})
delete_grant bucket key = wrapped "repository: delete grant: " (
    statement (λ w.
      put_db
        (record w.db {
          grants =
              update_where (live_grant bucket key) (λ (g : GrantRow). record g { deleted = true })
                w.db.grants;
        })
        w))

-- The live grants of a key on live buckets, with the buckets' names.
abbrev pub named_grants : String → List Bucket → List GrantRow → List (GrantRow × String)
named_grants key buckets [] = []
named_grants key buckets (g ∷ gs) =
    let rest = named_grants key buckets gs in
    if str_eq g.access_key_id key && not g.deleted
    then elim (find (λ (b : Bucket). str_eq b.id g.bucket_id && not b.deleted) buckets) [
      | none ↦ rest
      | some b ↦ (g, b.name) ∷ rest
    ]
    else rest

unfoldable pub list_grants_for_key : String → Exec RepoErr (List (GrantRow × String))
list_grants_for_key key =
    wrapped "repository: list grants: "
      (statement (gets (λ w. named_grants key w.db.buckets w.db.grants)))
