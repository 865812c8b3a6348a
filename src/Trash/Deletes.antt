-- ===== src/Trash/Deletes.antt =====
-- Deletes into the trash with a backend and a database that answer (internal/service/trash.go,
-- DeleteObjects of objects.go).
use buktio.Base.{
  ℕ, ◌+◌, ◌≤◌, ◌≡◌, eq_refl, Option, refl, ap, ◌∙◌, String, true, false, not, ◌&&◌, none, some,
  List, [], ◌∷◌, arith, length, str_eq, any, find,
}
use buktio.Runtime.Rows.{Bucket, TrashItem}
use buktio.Runtime.World.{
  World, Call, AuditEvent, sink_emit, head_object, copy_object, delete_object, fire_webhook,
  Metadata, ok, err, ok?, number, Exec, pure, ◌>>=◌,
}
use buktio.Runtime.Errors.{Error, actions}
use buktio.Runtime.Facade.{Services, Context, target_of, subject_from, tenant}
use buktio.Audit.Frame.{audit-db, audit-ok}
use buktio.Audit.Frame.{audit-trail}
use buktio.Guard.{authorize}
use buktio.Storage.{Storage, provider_for_bucket, head_size, copy_to, delete_key}
use buktio.Metering.{fire, fire_each}
use buktio.Objects.{delete_objects_of}
use buktio.Trash.Store.{insert_trash}
use buktio.Trash.{trash_retention, trash_key_of, trash_object, trash_each, trash_objects}
use buktio.Trash.Rows.{provided}

bound :
    {E A B : Type 0} (m : Exec E A) (f : A → Exec E B) (a : A) (w v : World)
    → m w ≡ (ok a, v)
    → (m >>= f) w ≡ f a v
unfolding ◌>>=◌
bound m f a w v e = ap (λ p. elim p.0 [ ok a ↦ f a p.1 | err e ↦ (err e, p.1) ]) e

-- The original keys of the rows with the keys where the objects are now.
abbrev pub places : List TrashItem → List (String × String)
places [] = []
places (t ∷ ts) = (t.original_key, t.trash_key) ∷ places ts

module _ (s : Services) (st : Storage) where
  -- The places once the objects with the given keys are moved at a time, the last in front.
  abbrev pub moved : ℕ → List String → List (String × String) → List (String × String)
  moved now [] ps = ps
  moved now (key ∷ keys) ps = moved now keys ((key, trash_key_of s st now key) ∷ ps)

  -- The calls that move the objects with the given keys within a bucket, behind earlier ones.
  abbrev pub moves : String → ℕ → List String → List Call → List Call
  moves alias now [] t = t
  moves alias now (key ∷ keys) t = moves alias now keys (
      delete_object alias key
      ∷ copy_object alias key (trash_key_of s st now key)
      ∷ head_object alias key
      ∷ t)

  module _ (b : Bucket) (copies : (t : List Call) (a k d : String) → st.copy t a k d ≡ none)
      (deletes : (t : List Call) (a k : String) → st.delete t a k ≡ none) where
    -- The world after one object.
    abbrev after : ℕ → String → World → World
    after now key w =
        let alias = b.garage_global_alias in
        record w {
          draws = w.draws + 1;
          trail =
              delete_object alias key
              ∷ copy_object alias key (trash_key_of s st now key)
              ∷ head_object alias key
              ∷ w.trail;
          db = record w.db {
            trash =
                record {
                  id = s.lib.new_uuid w.draws;
                  bucket_id = b.id;
                  org_id = b.org_id;
                  original_key = key;
                  trash_key = trash_key_of s st now key;
                  size_bytes = elim (ok? (st.head w.trail alias key)) [ none ↦ 0 | some n ↦ n ];
                  deleted_at = w.now;
                  purge_after = now + trash_retention;
                  restored = false;
                }
                ∷ w.db.trash;
          };
        }

    trash_object_lem :
        (now : ℕ) (key : String) (w : World)
        → w.faults ≡ []
        → any (λ (r : Bucket). str_eq r.id b.id) w.db.buckets ≡ true
        → trash_object s st now b key w ≡ (ok tt, after now key w)
    unfolding trash_object head_size copy_to delete_key insert_trash actions
    trash_object_lem now key w f there =
        let alias = b.garage_global_alias in
        let dst = trash_key_of s st now key in
        ground (
          arith,
          f,
          there,
          copies (head_object alias key ∷ w.trail) alias key dst,
          deletes (copy_object alias key dst ∷ head_object alias key ∷ w.trail) alias key,
        )

    trash_each_lem :
        (now : ℕ) (keys : List String) (w : World)
        → w.faults ≡ []
        → any (λ (r : Bucket). str_eq r.id b.id) w.db.buckets ≡ true
        → ((trash_each s st now b keys w).0 ≡ ok tt)
          × (places (trash_each s st now b keys w).1.db.trash ≡ moved now keys (places w.db.trash))
          × ((trash_each s st now b keys w).1.trail ≡ moves b.garage_global_alias now keys w.trail)
    unfolding trash_each pure
    trash_each_lem now [] w f there = (refl, refl, refl)
    trash_each_lem now (key ∷ keys) w f there =
        let (done, kept, called) = trash_each_lem now keys (after now key w) f there in
        let e =
          bound (trash_object s st now b key) (λ _. trash_each s st now b keys) tt w
            (after now key w) (trash_object_lem now key w f there) in
        (
          ap (λ p. p.0) e ∙ done,
          ap (λ p. places p.1.db.trash) e ∙ kept,
          ap (λ p. p.1.trail) e ∙ called,
        )

trash_objects_lem :
    (s : Services) (st : Storage) (ctx : Context) (b : Bucket) (keys : List String) (w : World)
    → st.unreachable w.trail b.cluster_id ≡ none
    → ((t : List Call) (a k d : String) → st.copy t a k d ≡ none)
    → ((t : List Call) (a k : String) → st.delete t a k ≡ none)
    → w.faults ≡ []
    → any (λ (r : Bucket). str_eq r.id b.id) w.db.buckets ≡ true
    → ((trash_objects s st ctx b keys w).0 ≡ ok tt)
      × (places (trash_objects s st ctx b keys w).1.db.trash
          ≡ moved s st w.now keys (places w.db.trash))
      × ((ev : AuditEvent) × ((trash_objects s st ctx b keys w).1.trail
            ≡ sink_emit ev ∷ moves s st b.garage_global_alias w.now keys w.trail))
unfolding trash_objects provider_for_bucket actions
trash_objects_lem s st ctx b keys w reach copies deletes f there =
    let (done, kept, called) = trash_each_lem s st b copies deletes w.now keys w f there in
    let w' = (trash_each s st w.now b keys w).1 in
    let count : Option Metadata = some (("count", number (length keys)) ∷ []) in
    let (ev, sent) = audit-trail s ctx "object.trash" "bucket" b.id count Error w' in
    (
      ground (arith, done, reach, audit-ok s ctx "object.trash" "bucket" b.id count {E = Error} w'),
      ground (arith, done, kept, reach, audit-db s ctx "object.trash" "bucket" b.id count Error w'),
      (ev, ground (arith, done, called, reach, sent)),
    )

-- The events of the removed objects, behind earlier calls.
abbrev pub announced : String → List String → List Call → List Call
announced bucket [] t = t
announced bucket (key ∷ keys) t =
    announced bucket keys (fire_webhook bucket "object.deleted" key ∷ t)

fire_each_lem :
    (bucket : String) (keys : List String) (w : World)
    → fire_each {E = Error} bucket "object.deleted" keys w
      ≡ (ok tt, record w { trail = announced bucket keys w.trail })
unfolding fire_each fire actions
fire_each_lem bucket [] w = refl
fire_each_lem bucket (key ∷ keys) w =
    fire_each_lem bucket keys
      (record w { trail = fire_webhook bucket "object.deleted" key ∷ w.trail })

has_row :
    (bucket : String) (b : Bucket) (bs : List Bucket)
    → find (λ (b : Bucket). str_eq b.id bucket && not b.deleted) bs ≡ some b
    → any (λ (r : Bucket). str_eq r.id b.id) bs ≡ true
has_row bucket b [] h = cc
has_row bucket b (x ∷ bs) h = ground (arith, has_row bucket b bs, eq_refl b.id)

-- Where no statement fails, the backend performs every call and the actor has the permission: a
-- delete of one or more objects of a bucket of the project without `permanent` succeeds. The only
-- calls are, in the order given, those that look at each object, copy it to its place under the
-- prefix and delete it at its key, then the event of the audit, then the events of the removed
-- objects; the trash then remembers each place with its original key.
pub trash_objects-places :
    (s : Services) (st : Storage) (ctx : Context) (bucket : String) (b : Bucket)
    (keys : List String) (w : World)
    → ((t : List Call) (a k d : String) → st.copy t a k d ≡ none)
    → ((t : List Call) (a k : String) → st.delete t a k ≡ none)
    → w.faults ≡ []
    → (s.can (subject_from ctx).0 "delete" (target_of "object" "")).allowed ≡ true
    → find (λ (b : Bucket). str_eq b.id bucket && not b.deleted) w.db.buckets ≡ some b
    → b.project_id ≡ (tenant s ctx).project_id
    → st.unreachable w.trail b.cluster_id ≡ none
    → 1 ≤ length keys
    → let p = delete_objects_of s st ctx bucket keys false w in
      (p.0 ≡ ok tt)
      × (places p.1.db.trash ≡ moved s st w.now keys (places w.db.trash))
      × ((ev : AuditEvent) × (p.1.trail
            ≡ announced bucket keys
                (sink_emit ev ∷ moves s st b.garage_global_alias w.now keys w.trail)))
unfolding delete_objects_of authorize actions
trash_objects-places s st ctx bucket b keys w copies deletes f allowed row own reach some_keys =
    let there = has_row bucket b w.db.buckets row in
    let (done, kept, (ev, called)) =
      trash_objects_lem s st ctx b keys w reach copies deletes f there in
    let found = provided s st ctx bucket b w f row own reach in
    let fired = fire_each_lem bucket keys (trash_objects s st ctx b keys w).1 in
    (
      ground (arith, found, done, fired),
      ground (arith, found, done, kept, fired),
      (ev, ground (arith, found, done, called, fired)),
    )
