-- ===== src/Guard/Lookups.antt =====
-- Proof rules for queries of one row and for the permission check (internal/service/guard.go).
use buktio.Base.{String, Option, none, some, List, find, not, ◌&&◌, str_eq}
use buktio.Runtime.Rows.{Db, Bucket}
use buktio.Runtime.World.{World, Call, statement}
use buktio.Runtime.Errors.{actions}
use buktio.Runtime.Facade.{Services, Context, Target}
use buktio.Runtime.Holds.{Holds, Holds-statement, holds_rules}
use buktio.Guard.{row_or_not_found, get_bucket, load_bucket, authorize}

row_at :
    {A : Type 0} (P : List Call → Db → Type 0) (o : Option A) (w : World)
    → P w.trail w.db
    → P (row_or_not_found o w).1.trail (row_or_not_found o w).1.db
unfolding actions
row_at P none w h = h
row_at P (some a) w h = h

module _ {P : List Call → Db → Type 0} where
  pub Holds-row :
      {A : Type 0} (f : World → Option A) → Holds P (statement (λ w. row_or_not_found (f w) w))
  Holds-row f = Holds-statement _ (record { at = λ w h. row_at P (f w) w h })

  pub get_bucket-Holds : (id : String) → Holds P (get_bucket id)
  unfolding get_bucket
  get_bucket-Holds id = search (
    holds_rules,
    Holds-row (λ w. find (λ (b : Bucket). str_eq b.id id && not b.deleted) w.db.buckets),
  )

  pub load_bucket-Holds :
      (s : Services) (ctx : Context) (id : String) → Holds P (load_bucket s ctx id)
  unfolding load_bucket
  load_bucket-Holds s ctx id = search (holds_rules, get_bucket-Holds)

  pub authorize-Holds :
      (s : Services) (ctx : Context) (action : String) (target : Target)
      → Holds P (authorize s ctx action target)
  unfolding authorize
  authorize-Holds s ctx action target = search holds_rules
