-- ===== src/Buckets/Empty.antt =====
-- How far emptyBucket empties a bucket (internal/service/buckets.go).
use buktio.Base.{
  ℕ, zero, suc, ◌+◌, ◌*◌, ◌≤◌, ◌<◌, ◌==◌, ◌≡◌, refl, sym, ◌∙◌, ap, String, Bool, true, false, not,
  ◌&&◌, none, List, [], ◌∷◌, arith, length, take, drop, ltb, if◌then◌else◌,
}
use mathlib.Core.Path.{subst}
use buktio.Runtime.World.{
  World, Call, list_keys, delete_objects, Result, ok, Exec, ◌>>=◌, ◌>>◌, pure,
}
use buktio.Runtime.Errors.{Error, actions}
use buktio.Storage.{Storage, Page, ask, or_storage, or_storage_err}
use buktio.Buckets.{object_keys, page_size, first_page, empty_rounds, empty_bucket}

-- A backend that lists the first keys of a bucket, and on a deletion of those keeps the rest.
-- `keys_in` tells the bucket's keys after the calls that were made.
pub record IsKeyList (st : Storage) (alias : String) (keys_in : List Call → List String)
    : Type 0 where
  pub page : List Call → Page
  pub listed : (t : List Call) → st.list t alias first_page ≡ ok (page t)
  pub first_keys : (t : List Call) → object_keys (page t).objects ≡ take page_size (keys_in t)
  pub truncated : (t : List Call) → (page t).is_truncated ≡ ltb page_size (length (keys_in t))
  pub read : (t : List Call) → keys_in (list_keys alias "" ∷ t) ≡ keys_in t
  pub accepted : (t : List Call) (keys : List String) → st.delete_many t alias keys ≡ none
  pub removed :
      (t : List Call)
      → keys_in (delete_objects alias (take page_size (keys_in t)) ∷ t) ≡ drop page_size (keys_in t)

module _ {ℓ} {A : Type ℓ} where
  drop_all : (n : ℕ) (xs : List A) → length xs ≤ n → drop n xs ≡ []
  drop_all zero [] h = refl
  drop_all zero (x ∷ xs) h = absurd (omega arith)
  drop_all (suc n) [] h = refl
  drop_all (suc n) (x ∷ xs) h = drop_all n xs (omega arith)

  drop-drop : (m n : ℕ) (xs : List A) → drop n (drop m xs) ≡ drop (m + n) xs
  drop-drop zero n xs = ground arith
  drop-drop (suc m) zero [] = sym (drop_all (suc m + zero) [] (omega arith))
  drop-drop (suc m) (suc n) [] = sym (drop_all (suc m + suc n) [] (omega arith))
  drop-drop (suc m) n (x ∷ xs) =
      let e : suc m + n ≡ suc (m + n) = omega arith in rw e (drop-drop m n xs)

  take_none : (n : ℕ) (xs : List A) → 0 < n → length (take n xs) ≡ 0 → xs ≡ []
  take_none n [] p h = refl
  take_none zero (x ∷ xs) p h = absurd (omega arith)
  take_none (suc n) (x ∷ xs) p h = absurd (omega arith)

module _ (st : Storage) (alias : String) (keys_in : List Call → List String)
    (k : IsKeyList st alias keys_in) where
  -- The world after a page was listed, and after its keys were deleted.
  abbrev listed_at : World → World
  listed_at w = record w { trail = list_keys alias "" ∷ w.trail }

  abbrev deleted_at : World → World
  deleted_at w = record w {
    trail = delete_objects alias (take page_size (keys_in w.trail)) ∷ list_keys alias "" ∷ w.trail;
  }

  -- What follows a listing, by its two tests.
  after_page :
      (none_left last : Bool) (keys : List String) (rest : Exec Error (Unit {0})) (v : World)
      → let action =
          if none_left
          then pure tt
          else ask (λ t. st.delete_many t alias keys) (delete_objects alias keys) >>= λ removed.
              or_storage_err removed >> (if last then pure tt else rest) in
        let gone = record v { trail = delete_objects alias keys ∷ v.trail } in
        action v ≡ (if none_left then (ok tt, v) else if last then (ok tt, gone) else rest gone)
  unfolding ask actions
  after_page true last keys rest v = refl
  after_page false true keys rest v = ground (arith, k.accepted v.trail keys)
  after_page false false keys rest v = ground (arith, k.accepted v.trail keys)

  round :
      (n : ℕ) (w : World)
      → empty_rounds st (suc n) alias w ≡ (
          if length (take page_size (keys_in w.trail)) == 0
          then (ok tt, listed_at w)
          else if not (ltb page_size (length (keys_in w.trail)))
              && ltb (length (take page_size (keys_in w.trail))) page_size
          then (ok tt, deleted_at w)
          else empty_rounds st n alias (deleted_at w))
  unfolding empty_rounds ask actions
  round n w =
      let keys = take page_size (keys_in w.trail) in
      rw (k.listed w.trail, or_storage, k.first_keys w.trail, k.truncated w.trail)
        (after_page _ _ keys (empty_rounds st n alias) (listed_at w))

  suc_mul : (n p : ℕ) → suc n * p ≡ p + n * p
  suc_mul n p = grind arith

  kept : (w : World) → keys_in (deleted_at w).trail ≡ drop page_size (keys_in w.trail)
  kept w =
      let t = list_keys alias "" ∷ w.trail in
      let same = k.read w.trail in
      ap (λ keys. keys_in (delete_objects alias (take page_size keys) ∷ t)) (sym same)
      ∙ k.removed t
      ∙ ap (drop page_size) same

  positive : 0 < page_size
  unfolding page_size
  positive = omega arith

  -- The three ways in which a round goes on.
  Done : ℕ → World → Result Error (Unit {0}) × World → Type 0
  Done n w p =
      (p.0 ≡ ok tt) × (keys_in p.1.trail ≡ drop (n * page_size) (keys_in w.trail)) × (p.1.db ≡ w.db)

  none_left :
      (n : ℕ) (w : World)
      → length (take page_size (keys_in w.trail)) ≡ 0
      → Done n w (ok tt, listed_at w)
  unfolding Done
  none_left n w h =
      let e = take_none page_size (keys_in w.trail) positive h in
      (refl, k.read w.trail ∙ rw e (sym (drop_all (n * page_size) [] (omega arith))), refl)

  last_page :
      (n : ℕ) (w : World)
      → length (keys_in w.trail) ≤ page_size
      → Done (suc n) w (ok tt, deleted_at w)
  unfolding Done
  last_page n w h =
      let ks = keys_in w.trail in
      (
        refl,
        kept w
            ∙ drop_all page_size ks h
            ∙ sym (drop_all (suc n * page_size) ks (omega (arith, suc_mul n page_size))),
        refl,
      )

  next_round :
      (n : ℕ) (w : World)
      → Done n (deleted_at w) (empty_rounds st n alias (deleted_at w))
      → Done (suc n) w (empty_rounds st n alias (deleted_at w))
  unfolding Done
  next_round n w (a, b, c) = (
    a,
    b
        ∙ ap (drop (n * page_size)) (kept w)
        ∙ drop-drop page_size (n * page_size) (keys_in w.trail)
        ∙ ap (λ m. drop m (keys_in w.trail)) (sym (suc_mul n page_size)),
    c,
  )

  chosen :
      (n : ℕ) (w : World) (small last : Bool)
      → (length (take page_size (keys_in w.trail)) == 0) ≡ small
      → (not (ltb page_size (length (keys_in w.trail)))
          && ltb (length (take page_size (keys_in w.trail))) page_size)
        ≡ last
      → Done n (deleted_at w) (empty_rounds st n alias (deleted_at w))
      → Done (suc n) w (
          if small
          then (ok tt, listed_at w)
          else if last
          then (ok tt, deleted_at w)
          else empty_rounds st n alias (deleted_at w))
  chosen n w true last e f d = none_left (suc n) w (ground (arith, e))
  chosen n w false true e f d = last_page n w (ground (arith, f))
  chosen n w false false e f d = next_round n w d

  empty_rounds_lem : (n : ℕ) (w : World) → Done n w (empty_rounds st n alias w)
  unfolding empty_rounds Done actions
  empty_rounds_lem zero w = (refl, ground arith, refl)
  empty_rounds_lem (suc n) w =
      subst (Done (suc n) w) (sym (round n w))
        (chosen n w _ _ refl refl (empty_rounds_lem n (deleted_at w)))

-- On a backend that lists the first thousand keys, deletes what it is asked to and keeps the rest:
-- emptying a bucket ends without an error, deletes the first thousand thousands of its keys, keeps
-- all keys behind them, and leaves the database as it is. So a bucket of at most a million objects
-- is empty, and a larger one is not.
pub empty_bucket-drops :
    (st : Storage) (alias : String) (keys_in : List Call → List String)
    → IsKeyList st alias keys_in
    → (w : World)
    → ((empty_bucket st alias w).0 ≡ ok tt)
      × (keys_in (empty_bucket st alias w).1.trail ≡ drop (1000 * page_size) (keys_in w.trail))
      × ((empty_bucket st alias w).1.db ≡ w.db)
unfolding empty_bucket
empty_bucket-drops st alias keys_in k w = unfold Done in empty_rounds_lem st alias keys_in k 1000 w
