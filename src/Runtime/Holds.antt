-- ===== src/Runtime/Holds.antt =====
-- Invariants of the database together with the trail of calls.
use buktio.Base.{◌≡◌, refl, Bool, true, false, Option, none, some, List, String, if◌then◌else◌}
use buktio.Runtime.Rows.{Db}
use buktio.Runtime.World.{
  World, Call, RepoErr, Result, ok, err, Exec, ◌>>=◌, pure, raise, gets, attempt, or_zero, ignore,
  statement, statement_on, wrapped, draw,
}
use buktio.Runtime.Errors.{mapped}

-- Whether `m` returns a value or an error, it keeps the property `P`.
pub record Holds {E A : Type 0} (P : List Call → Db → Type 0) (m : Exec E A) : Type 0 where
  pub at : (w : World) → P w.trail w.db → P (m w).1.trail (m w).1.db

module _ {P : List Call → Db → Type 0} where
  pub Holds-pure : {E A : Type 0} (a : A) → Holds P (pure {E = E} a)
  unfolding pure
  Holds-pure a = record { at = λ w h. h }

  pub Holds-gets : {E A : Type 0} (f : World → A) → Holds P (gets {E = E} f)
  unfolding gets
  Holds-gets f = record { at = λ w h. h }

  bound_at :
      {E A B : Type 0} (f : A → Exec E B) (r : Result E A) (w : World)
      → ((a : A) → Holds P (f a))
      → P w.trail w.db
      → let v = (((λ (v : World). (r, v)) >>= f) w).1 in P v.trail v.db
  unfolding ◌>>=◌
  bound_at f (ok a) w kf h = (kf a).at w h
  bound_at f (err e) w kf h = h

  pub Holds-bind :
      {E A B : Type 0} (m : Exec E A) (f : A → Exec E B)
      → Holds P m
      → ((a : A) → Holds P (f a))
      → Holds P (m >>= f)
  unfolding ◌>>=◌
  Holds-bind m f km kf = record {
    at = λ w h. unfold bound_at in bound_at f (m w).0 (m w).1 kf (km.at w h);
  }

  statement_at :
      {A : Type 0} (faults : List (Option String)) (f : Exec RepoErr A) (w : World)
      → Holds P f
      → P w.trail w.db
      → let v = (statement_on faults f w).1 in P v.trail v.db
  statement_at List.[] f w kf h = kf.at w h
  statement_at (List.◌∷◌ none rest) f w kf h = kf.at (record w { faults = rest }) h
  statement_at (List.◌∷◌ (some msg) rest) f w kf h = h

  pub Holds-statement : {A : Type 0} (f : Exec RepoErr A) → Holds P f → Holds P (statement f)
  unfolding statement
  Holds-statement f kf = record { at = λ w h. statement_at w.faults f w kf h }

  pub Holds-wrapped :
      {A : Type 0} (prefix : String) (m : Exec RepoErr A) → Holds P m → Holds P (wrapped prefix m)
  unfolding wrapped
  Holds-wrapped prefix m km = record { at = km.at }

  pub Holds-attempt : {E F A : Type 0} (m : Exec E A) → Holds P m → Holds P (attempt {F = F} m)
  unfolding attempt
  Holds-attempt m km = record { at = km.at }

  pub Holds-or_zero :
      {E F A : Type 0} (d : A) (m : Exec E A) → Holds P m → Holds P (or_zero {F = F} d m)
  unfolding or_zero
  Holds-or_zero d m km = record { at = km.at }

  pub Holds-ignore : {E F A : Type 0} (m : Exec E A) → Holds P m → Holds P (ignore {F = F} m)
  unfolding ignore
  Holds-ignore m km = record { at = km.at }

  pub Holds-raise : {E A : Type 0} (e : E) → Holds P (raise {A = A} e)
  unfolding raise
  Holds-raise e = record { at = λ w h. h }

  pub Holds-draw : {E : Type 0} → Holds P (draw {E = E})
  unfolding draw
  Holds-draw = record { at = λ w h. h }

  pub Holds-mapped : {A : Type 0} (m : Exec RepoErr A) → Holds P m → Holds P (mapped m)
  unfolding mapped
  Holds-mapped m km = record { at = km.at }

  pub Holds-if :
      {E A : Type 0} (b : Bool) (m n : Exec E A)
      → (b ≡ true → Holds P m)
      → (b ≡ false → Holds P n)
      → Holds P (if b then m else n)
  Holds-if true m n km kn = km refl
  Holds-if false m n km kn = kn refl

-- Two actions in turn: the first ends in `P`, which gives `Q` where it returns an error, and from
-- `P` the second ends in `Q`.
module _ {P Q : List Call → Db → Type 0} where
  led_to :
      {E A B : Type 0} (f : A → Exec E B) (r : Result E A) (w : World)
      → ((t : List Call) (d : Db) → P t d → Q t d)
      → ((a : A) (v : World) → P v.trail v.db → Q (f a v).1.trail (f a v).1.db)
      → P w.trail w.db
      → let v = (((λ (v : World). (r, v)) >>= f) w).1 in Q v.trail v.db
  unfolding ◌>>=◌
  led_to f (ok a) w weaker next h = next a w h
  led_to f (err e) w weaker next h = weaker w.trail w.db h

  leads_to :
      {E A B : Type 0} (m : Exec E A) (f : A → Exec E B) (w : World)
      → ((t : List Call) (d : Db) → P t d → Q t d)
      → ((a : A) (v : World) → P v.trail v.db → Q (f a v).1.trail (f a v).1.db)
      → P (m w).1.trail (m w).1.db
      → Q ((m >>= f) w).1.trail ((m >>= f) w).1.db
  unfolding ◌>>=◌
  leads_to m f w weaker next h = unfold led_to in led_to f (m w).0 (m w).1 weaker next h

-- The database as it was.
abbrev pub IsDb : Db → List Call → Db → Type 0
IsDb db t d = d ≡ db

-- An action that keeps the database, then one that ends in `Q`, which the database as it was is in.
module _ {Q : Db → Type 0} (db : Db) (unchanged : (d : Db) → d ≡ db → Q d) where
  pub unchanged_then :
      {E A B : Type 0} (m : Exec E A) (f : A → Exec E B) (w : World)
      → w.db ≡ db
      → Holds (IsDb db) m
      → ((a : A) (v : World) → v.db ≡ db → Q (f a v).1.db)
      → Q ((m >>= f) w).1.db
  unchanged_then m f w e km next =
      leads_to {P = IsDb db} {Q = λ t d. Q d} m f w (λ t. unchanged) next (km.at w e)

  statement_then_at :
      {A : Type 0} (faults : List (Option String)) (f : Exec RepoErr A) (w : World)
      → w.db ≡ db
      → ((v : World) → v.db ≡ db → Q (f v).1.db)
      → Q (statement_on faults f w).1.db
  statement_then_at List.[] f w e next = next w e
  statement_then_at (List.◌∷◌ none rest) f w e next = next (record w { faults = rest }) e
  statement_then_at (List.◌∷◌ (some msg) rest) f w e next = unchanged w.db e

  pub statement_then :
      {A : Type 0} (f : Exec RepoErr A) (w : World)
      → w.db ≡ db
      → ((v : World) → v.db ≡ db → Q (f v).1.db)
      → Q (statement f w).1.db
  unfolding statement
  statement_then f w e next = statement_then_at w.faults f w e next

pub keeps_then :
    {Q : Db → Type 0} {E A B : Type 0} (m : Exec E A) (f : A → Exec E B) (w : World)
    → Q (m w).1.db
    → ((a : A) → Holds (λ t d. Q d) (f a))
    → Q ((m >>= f) w).1.db
keeps_then {Q = Q} m f w h kf =
    leads_to {P = λ t d. Q d} {Q = λ t d. Q d} m f w (λ t d k. k) (λ a. (kf a).at) h

pub ruleset holds_rules = (
  Holds-pure, Holds-gets, Holds-bind, Holds-statement, Holds-wrapped, Holds-attempt, Holds-or_zero,
  Holds-ignore, Holds-raise, Holds-draw, Holds-mapped, Holds-if,
)
