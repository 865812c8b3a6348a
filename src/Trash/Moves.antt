-- ===== src/Trash/Moves.antt =====
-- The order of copies and deletions (internal/service/trash.go, MoveObject and
-- DeleteObjects of objects.go).
use buktio.Base.{
  ℕ, ◌≡◌, inl, inr, String, Bool, true, false, ◌&&◌, Option, none, some, List, [], ◌∷◌, arith,
  str_eq, eq_refl, find, Option-cases,
}
use buktio.Runtime.Rows.{Db, Bucket}
use buktio.Runtime.World.{
  World, Metadata, ◌>>=◌, ◌>>◌, put_db, Call, copy_object, delete_object, Exec, call_out,
}
use buktio.Runtime.Errors.{Error, actions}
use buktio.Runtime.Facade.{Services, Context}
use buktio.Runtime.Holds.{Holds, holds_rules, Holds-bind, Holds-pure, Holds-raise, Holds-statement}
use buktio.Audit.{audit}
use buktio.Audit.Frame.{audit-Holds}
use buktio.Guard.{authorize}
use buktio.Guard.Lookups.{Holds-row, load_bucket-Holds}
use buktio.Storage.{
  Storage, StorageErr, or_unreachable, or_storage_err, provider_for_bucket, head_size, copy_to,
  delete_key, bucket_provider,
}
use buktio.Trash.Store.{insert_trash, get_trash, mark_restored, live_trash}
use buktio.Metering.{fire, fire_each}
use buktio.Objects.{move_object, delete_objects_of}
use buktio.Trash.{trash_object, trash_each, trash_objects, restore_object}

-- Whether the latest call is a copy of the object, which succeeded.
abbrev pub copied_before : Storage → String → String → List Call → Bool
copied_before st alias key (copy_object a src dst ∷ rest) =
    str_eq a alias
    && str_eq src key
    && elim (st.copy rest a src dst) [ none ↦ true | some e ↦ false ]
copied_before st alias key _ = false

-- Every object that was deleted had been copied right before, with success.
abbrev pub is_safe : Storage → List Call → Bool
is_safe st [] = true
is_safe st (delete_object alias key ∷ rest) = copied_before st alias key rest && is_safe st rest
is_safe st (_ ∷ rest) = is_safe st rest

abbrev IsSafe : Storage → List Call → Db → Type 0
IsSafe st trail db = is_safe st trail ≡ true

module _ (s : Services) (st : Storage) where
  object_at :
      (now : ℕ) (b : Bucket) (key : String) (w : World)
      → is_safe st w.trail ≡ true
      → is_safe st (trash_object s st now b key w).1.trail ≡ true
  unfolding trash_object head_size copy_to delete_key insert_trash actions
  object_at now b key w h = ground (arith, eq_refl b.garage_global_alias, eq_refl key)

  trash_object-Holds :
      (now : ℕ) (b : Bucket) (key : String) → Holds (IsSafe st) (trash_object s st now b key)
  trash_object-Holds now b key = record { at = λ w h. object_at now b key w h }

  trash_each-Holds :
      (now : ℕ) (b : Bucket) (keys : List String) → Holds (IsSafe st) (trash_each s st now b keys)
  unfolding trash_each
  trash_each-Holds now b [] = Holds-pure tt
  trash_each-Holds now b (key ∷ keys) =
      Holds-bind _ _ (trash_object-Holds now b key) (λ _. trash_each-Holds now b keys)

  or_unreachable-Holds : (failure : Option String) → Holds (IsSafe st) (or_unreachable st failure)
  or_unreachable-Holds none = Holds-pure tt
  or_unreachable-Holds (some msg) = Holds-raise _

  or_storage_err-Holds : (failure : Option StorageErr) → Holds (IsSafe st) (or_storage_err failure)
  or_storage_err-Holds none = Holds-pure tt
  or_storage_err-Holds (some e) = Holds-raise _

  module _ (ctx : Context) where
    audited :
        (action target id : String) (metadata : Option Metadata)
        → Holds (IsSafe st) (audit s {E = Error} ctx action target id metadata)
    audited action target id metadata = audit-Holds s ctx action target id metadata (λ ev t d h. h)

    pub trash_objects-Holds :
        (b : Bucket) (keys : List String) → Holds (IsSafe st) (trash_objects s st ctx b keys)
    unfolding trash_objects provider_for_bucket
    trash_objects-Holds b keys =
        search (holds_rules, or_unreachable-Holds, trash_each-Holds, audited) depth 9

    get_trash-Holds : (id : String) → Holds (IsSafe st) (get_trash id)
    unfolding get_trash
    get_trash-Holds id = Holds-row (λ w. find (live_trash id) w.db.trash)

    mark_restored-Holds : (id : String) → Holds (IsSafe st) (mark_restored id)
    unfolding mark_restored put_db
    mark_restored-Holds id = Holds-statement _ (record { at = λ w h. h })

    bucket_provider-Holds : (id : String) → Holds (IsSafe st) (bucket_provider st s ctx id)
    unfolding bucket_provider provider_for_bucket
    bucket_provider-Holds id = search (holds_rules, load_bucket-Holds, or_unreachable-Holds)

    -- A copy, and the deletion of what was copied once the copy succeeded.
    Holds-moved :
        (alias key dst : String) (k : Exec Error (Unit {0}))
        → Holds (IsSafe st) k
        → Holds (IsSafe st) (
            copy_to st alias key dst >>= λ copied.
            or_storage_err copied
            >> (delete_key st alias key >>= λ removed. or_storage_err removed >> k))
    unfolding copy_to delete_key actions
    Holds-moved alias key dst k kk = record {
      at = λ w h.
          let copied = copy_object alias key dst ∷ w.trail in
          let moved = record w { trail = delete_object alias key ∷ copied } in
          elim (Option-cases (st.copy w.trail alias key dst)) [
            | inl c ↦ elim (Option-cases (st.delete copied alias key)) [
              | inl d ↦ ground (arith, h, c, d, kk.at moved, eq_refl alias, eq_refl key)
              | inr (e, d) ↦ ground (arith, h, c, d, eq_refl alias, eq_refl key)
            ]
            | inr (e, c) ↦ ground (arith, h, c)
          ];
    }

    pub restore_object-Holds :
        (bucket id : String) → Holds (IsSafe st) (restore_object s st ctx bucket id)
    unfolding restore_object authorize
    restore_object-Holds bucket id =
        search
          (
            holds_rules, get_trash-Holds, bucket_provider-Holds, Holds-moved, mark_restored-Holds,
            audited,
          )
          depth 12

    fire-Holds : (bucket event key : String) → Holds (IsSafe st) (fire {E = Error} bucket event key)
    unfolding fire call_out
    fire-Holds bucket event key = record { at = λ w h. h }

    fire_each-Holds :
        (bucket event : String) (keys : List String)
        → Holds (IsSafe st) (fire_each {E = Error} bucket event keys)
    unfolding fire_each
    fire_each-Holds bucket event [] = Holds-pure tt
    fire_each-Holds bucket event (key ∷ keys) =
        Holds-bind _ _ (fire-Holds bucket event key) (λ _. fire_each-Holds bucket event keys)

    pub move_object-Holds :
        (bucket src dst : String) → Holds (IsSafe st) (move_object s st ctx bucket src dst)
    unfolding move_object authorize
    move_object-Holds bucket src dst =
        search (holds_rules, bucket_provider-Holds, Holds-moved, fire-Holds, audited) depth 12

    pub trashed-Holds :
        (bucket : String) (keys : List String)
        → Holds (IsSafe st) (delete_objects_of s st ctx bucket keys false)
    unfolding delete_objects_of authorize
    trashed-Holds bucket keys =
        search (holds_rules, bucket_provider-Holds, trash_objects-Holds, fire_each-Holds) depth 12

-- Whatever statement fails and whatever the backend answers: trashing objects, deleting objects to
-- the trash, restoring one and moving one delete no object that was not copied, with success, right
-- before.
pub moves-is_safe :
    (s : Services) (st : Storage) (ctx : Context) (b : Bucket) (keys : List String)
    (bucket id src dst : String) (w : World)
    → is_safe st w.trail ≡ true
    → (is_safe st (trash_objects s st ctx b keys w).1.trail ≡ true)
      × (is_safe st (delete_objects_of s st ctx bucket keys false w).1.trail ≡ true)
      × (is_safe st (restore_object s st ctx bucket id w).1.trail ≡ true)
      × (is_safe st (move_object s st ctx bucket src dst w).1.trail ≡ true)
moves-is_safe s st ctx b keys bucket id src dst w h = (
  (trash_objects-Holds s st ctx b keys).at w h,
  (trashed-Holds s st ctx bucket keys).at w h,
  (restore_object-Holds s st ctx bucket id).at w h,
  (move_object-Holds s st ctx bucket src dst).at w h,
)
