-- ===== src/Buckets/Compensation.antt =====
-- The step back of CreateBucket where the row is refused (internal/service/buckets.go).
use buktio.Base.{
  ◌≡◌, refl, String, Bool, true, false, Option, none, some, List, [], ◌∷◌, ◌++◌, arith, eq_refl,
  any,
}
use buktio.Runtime.Rows.{Bucket}
use buktio.Runtime.World.{World, err, RepoErr, drop_on_backend, violation, wrap_err, failed}
use buktio.Runtime.Errors.{Error, actions, map_repo_err}
use buktio.Runtime.Facade.{Services, Context}
use buktio.Storage.{Storage, ask}
use buktio.Buckets.Store.{clashes, insert_bucket}
use buktio.Buckets.{QuotaDto, new_bucket, record_bucket}

any-append :
    (p : Bucket → Bool) (before rest : List Bucket) (b : Bucket)
    → p b ≡ true
    → any p (before ++ b ∷ rest) ≡ true
any-append p [] rest b h = ground arith
any-append p (x ∷ before) rest b h = ground (arith, any-append p before rest b h)

abbrev prefix : String
prefix = "repository: create bucket: "

abbrev refusal : RepoErr
refusal = wrap_err prefix violation

module _ (s : Services) (st : Storage) (ctx : Context) where
  -- A refused insert leaves the database and the trail.
  refused_at :
      (row : Bucket) (faults : List (Option String)) (w : World)
      → w.faults ≡ faults
      → any (clashes row) w.db.buckets ≡ true
      → (e : RepoErr) × ((insert_bucket s row w).0 ≡ err e)
        × ((insert_bucket s row w).1.db ≡ w.db)
        × ((insert_bucket s row w).1.trail ≡ w.trail)
  unfolding insert_bucket actions
  refused_at row [] w f h =
      (refusal, ground (arith, f, h), ground (arith, f, h), ground (arith, f, h))
  refused_at row (none ∷ rest) w f h =
      (refusal, ground (arith, f, h), ground (arith, f, h), ground (arith, f, h))
  refused_at row (some msg ∷ rest) w f h =
      (wrap_err prefix (failed msg), ground (arith, f), ground (arith, f), ground (arith, f))

  dropped_at :
      (cid name garage_id : String) (quota : QuotaDto) (w : World) (e : RepoErr)
      → (insert_bucket s (new_bucket s st ctx cid name garage_id quota) w).0 ≡ err e
      → (insert_bucket s (new_bucket s st ctx cid name garage_id quota) w).1.db ≡ w.db
      → (insert_bucket s (new_bucket s st ctx cid name garage_id quota) w).1.trail ≡ w.trail
      → let done = record_bucket s st ctx cid name garage_id quota w in
        (done.0 ≡ err (map_repo_err e))
        × (done.1.db ≡ w.db)
        × (done.1.trail ≡ drop_on_backend cid garage_id ∷ w.trail)
  unfolding record_bucket ask actions
  dropped_at cid name garage_id quota w e x y z =
      (ground (arith, x), ground (arith, x, y), ground (arith, x, z))

-- Whether a statement fails or none does: where a live bucket of the same cluster has the backend's
-- id of the new one, CreateBucket's last step returns an error, writes no row, and asks the backend
-- to drop the bucket with that id, which is the other row's bucket.
pub record_bucket-drops_other :
    (s : Services) (st : Storage) (ctx : Context) (before after : List Bucket) (b : Bucket)
    (name : String) (quota : QuotaDto) (w : World)
    → w.db.buckets ≡ before ++ b ∷ after
    → b.deleted ≡ false
    → let done = record_bucket s st ctx b.cluster_id name b.garage_bucket_id quota w in
      (e : Error) × (done.0 ≡ err e)
      × (done.1.db ≡ w.db)
      × (done.1.trail ≡ drop_on_backend b.cluster_id b.garage_bucket_id ∷ w.trail)
record_bucket-drops_other s st ctx before after b name quota w rows live =
    let row = new_bucket s st ctx b.cluster_id name b.garage_bucket_id quota in
    let clash : clashes row b ≡ true =
      ground (arith, live, eq_refl b.cluster_id, eq_refl b.garage_bucket_id) in
    let taken : any (clashes row) w.db.buckets ≡ true =
      rw rows (any-append (clashes row) before after b clash) in
    let (e, x, y, z) = refused_at s st ctx row w.faults w refl taken in
    let (p, q, t) = dropped_at s st ctx b.cluster_id name b.garage_bucket_id quota w e x y z in
    (map_repo_err e, p, q, t)
