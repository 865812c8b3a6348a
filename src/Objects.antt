-- ===== src/Objects.antt =====
-- Objects (internal/service/objects.go). An object's body, content type, customer key, tag and time
-- of change pass through the services unread and are left out.
use package.text.Mathlib.Text.{starts_with}
use buktio.Base.{
  ℕ, zero, suc, ◌*◌, String, Bool, true, not, ◌&&◌, ◌||◌, some, List, [], ◌∷◌, ◌==◌, length, ltb,
  str_eq, if◌then◌else◌,
}
use buktio.Base.Int.{ℤ, pos, negsuc}
use buktio.Runtime.World.{
  text, number, flag, Exec, ◌>>=◌, ◌>>◌, pure, raise, head_object, list_keys, get_object,
  put_object, delete_objects,
}
use buktio.Runtime.Errors.{Error, validation_err}
use buktio.Runtime.Facade.{Services, Context, target_of}
use buktio.Audit.{audit}
use buktio.Guard.{authorize}
use buktio.Quota.{quota_guard}
use buktio.Metering.{emit, fire, fire_each}
use buktio.Storage.{
  Storage, Object, ListInput, ask, or_storage, or_storage_err, copy_to, delete_key, bucket_provider,
}
use buktio.Trash.{trash_prefix, trash_objects}

pub record ObjectDto : Type 0 where
  pub type : String
  pub key : String
  pub size_bytes : ℕ

pub record ObjectListDto : Type 0 where
  pub objects : List ObjectDto
  pub common_prefixes : List String
  pub next_cursor : String
  pub is_truncated : Bool

abbrev pub object_dto : Object → ObjectDto
object_dto o = record { type = "object"; key = o.key; size_bytes = o.size }

-- What is not under the prefix of the trash.
abbrev pub shown_objects : List Object → List ObjectDto
shown_objects [] = []
shown_objects (o ∷ os) =
    let rest = shown_objects os in
    if starts_with o.key trash_prefix then rest else object_dto o ∷ rest

abbrev pub shown_prefixes : List String → List String
shown_prefixes [] = []
shown_prefixes (p ∷ ps) =
    let rest = shown_prefixes ps in if not (starts_with p trash_prefix) then p ∷ rest else rest

-- Fifteen minutes where no positive number of seconds is given, in nanoseconds.
abbrev pub expires_of : ℤ → ℕ
expires_of (pos zero) = 15 * 60 * 1000000000
expires_of (pos (suc n)) = suc n * 1000000000
expires_of (negsuc n) = 15 * 60 * 1000000000

module _ (s : Services) (st : Storage) (ctx : Context) where
  unfoldable pub list_objects_of : String → ListInput → Exec Error ObjectListDto
  list_objects_of bucket input = do
    b ← bucket_provider st s ctx bucket
    answer ←
        ask (λ t. st.list t b.garage_global_alias input)
          (list_keys b.garage_global_alias input.prefix)
    page ← or_storage answer
    pure (record {
      objects = shown_objects page.objects;
      common_prefixes = shown_prefixes page.common_prefixes;
      next_cursor = page.next_token;
      is_truncated = page.is_truncated;
    })

  unfoldable pub delete_objects_of : String → List String → Bool → Exec Error (Unit {0})
  delete_objects_of bucket keys permanent = do
    authorize s ctx "delete" (target_of "object" "")
    if length keys == 0 then raise (validation_err "no object keys provided") else pure tt
    b ← bucket_provider st s ctx bucket
    if permanent
        then (do
          refused ←
              ask (λ t. st.delete_many t b.garage_global_alias keys)
                (delete_objects b.garage_global_alias keys)
          or_storage_err refused
          audit s ctx "object.delete" "bucket" bucket
              (some (("count", number (length keys)) ∷ ("permanent", flag true) ∷ [])))
        else trash_objects s st ctx b keys
    fire_each bucket "object.deleted" keys

  unfoldable pub head_object_of : String → String → Exec Error ObjectDto
  head_object_of bucket key = do
    b ← bucket_provider st s ctx bucket
    answer ← ask (λ t. st.head t b.garage_global_alias key) (head_object b.garage_global_alias key)
    size ← or_storage answer
    pure (record { type = "object"; key = key; size_bytes = size })

  unfoldable pub copy_object_of : String → String → String → Exec Error (Unit {0})
  copy_object_of bucket src dst = do
    authorize s ctx "create" (target_of "object" "")
    if str_eq src "" || str_eq dst ""
        then raise (validation_err "src_key and dst_key are required")
        else pure tt
    b ← bucket_provider st s ctx bucket
    refused ← copy_to st b.garage_global_alias src dst
    or_storage_err refused
    audit s ctx "object.copy" "bucket" bucket (some (("src", text src) ∷ ("dst", text dst) ∷ []))
    fire bucket "object.created" dst

  -- A copy, then the removal of the source.
  unfoldable pub move_object : String → String → String → Exec Error (Unit {0})
  move_object bucket src dst = do
    authorize s ctx "update" (target_of "object" "")
    if str_eq src "" || str_eq dst "" || str_eq src dst
        then raise (validation_err "distinct src_key and dst_key are required")
        else pure tt
    b ← bucket_provider st s ctx bucket
    copied ← copy_to st b.garage_global_alias src dst
    or_storage_err copied
    removed ← delete_key st b.garage_global_alias src
    or_storage_err removed
    audit s ctx "object.move" "bucket" bucket (some (("src", text src) ∷ ("dst", text dst) ∷ []))
    fire bucket "object.created" dst
    fire bucket "object.deleted" src

  -- The size is the length of the body, which the caller has read; an empty body is not checked
  -- against the quota. `encrypted` says whether the customer gives a key.
  unfoldable pub put_object_stream : String → String → ℕ → Bool → Exec Error (Unit {0})
  put_object_stream bucket key size encrypted = do
    authorize s ctx "create" (target_of "object" "")
    if str_eq key "" then raise (validation_err "key is required") else pure tt
    if ltb 0 size then quota_guard s ctx (pos size) else pure tt
    b ← bucket_provider st s ctx bucket
    refused ←
        ask (λ t. st.put t b.garage_global_alias key size) (put_object b.garage_global_alias key)
    or_storage_err refused
    audit s ctx "object.upload" "bucket" bucket
        (some (("key", text key) ∷ ("sse_c", flag encrypted) ∷ []))
    emit s ctx "object.uploaded" bucket size
    fire bucket "object.created" key

  unfoldable pub get_object_stream : String → String → Exec Error Object
  get_object_stream bucket key = do
    if str_eq key "" then raise (validation_err "key is required") else pure tt
    b ← bucket_provider st s ctx bucket
    answer ← ask (λ t. st.get t b.garage_global_alias key) (get_object b.garage_global_alias key)
    or_storage answer

  -- A signed PUT needs the right to create objects, a signed GET the right to read.
  unfoldable pub presign_object : String → String → String → ℤ → Exec Error String
  presign_object bucket key method seconds = do
    b ← bucket_provider st s ctx bucket
    let upper = s.lib.to_upper method
    if not (str_eq upper "GET") && not (str_eq upper "PUT")
        then raise (validation_err "method must be GET or PUT")
        else pure tt
    authorize s ctx (if str_eq upper "PUT" then "create" else "read") (target_of "object" "")
    if str_eq key "" then raise (validation_err "key is required") else pure tt
    or_storage (st.presign b.garage_global_alias key upper (expires_of seconds))
