-- ===== src/Runtime/World.antt =====
-- The world of one service call: the database with the statements that fail, the clock, the audit
-- rows, the random draws and the trail of the calls to other systems; and the actions on it.
use buktio.Base.{ℕ, ◌+◌, ◌<>◌, String, Bool, Option, none, some, List, [], ◌∷◌}
use buktio.Base.Int.{ℤ}
use buktio.Runtime.Rows.{Db}

-- A value of a metadata map (`map[string]any`).
pub data Value : Type 0 where
  text : String → Value
  number : ℕ → Value
  flag : Bool → Value
  texts : List String → Value
  null : Value

abbrev pub Metadata : Type 0
Metadata = List (String × Value)

-- A row of audit_events.
pub record AuditRow : Type 0 where
  pub id : ℕ
  pub org_id : String
  pub actor_user_id : String
  pub actor_type : String
  pub action : String
  pub target_type : String
  pub target_id : String
  pub metadata : String
  pub created_at : ℕ
  pub prev_hash : String
  pub row_hash : String

-- An event as the SIEM sink receives it (internal/audit/audit.go).
pub record AuditEvent : Type 0 where
  pub org_id : String
  pub actor_user_id : String
  pub actor_type : String
  pub action : String
  pub target_type : String
  pub target_id : String
  pub metadata : Metadata

-- The calls that leave the program.
pub data Call : Type 0 where
  sink_emit : AuditEvent → Call
  send_invite : String → String → Call
  head_object : String → String → Call
  copy_object : String → String → String → Call
  delete_object : String → String → Call
  list_objects : String → String → Call
  create_subscription : String → String → Call
  report_usage : String → ℕ → String → Call
  send_verification : String → String → Call
  meter_emit : String → String → String → ℕ → Call
  fire_webhook : String → String → String → Call
  create_on_backend : String → String → Call
  drop_on_backend : String → String → Call
  grant_on_backend : String → String → String → List Bool → Call
  revoke_on_backend : String → String → String → Call
  set_backend_quota : String → String → Option ℤ → Option ℤ → Call
  set_backend_visibility : String → String → Bool → String → String → Call
  read_usage : String → String → Call
  list_keys : String → String → Call
  delete_objects : String → List String → Call
  create_backend_key : String → Bool → Call
  delete_backend_key : String → Call
  put_object : String → String → Call
  get_object : String → String → Call
  read_source : String → String → Call
  ping : String → Call
  run_dump : String → Call
  remove_file : String → Call
  upload_file : String → Call
  provision_cluster : String → String → Call
  read_health : String → Call

-- What a repository method returns beside its value.
pub data RepoErr : Type 0 where
  not_found : RepoErr
  failed : String → RepoErr

pub record World : Type 0 where
  pub db : Db
  pub audit_rows : List AuditRow
  -- For each coming statement the driver's error, if it fails; past the end none fails.
  pub faults : List (Option String)
  pub now : ℕ
  -- How many random values have been drawn.
  pub draws : ℕ
  -- The newest call first.
  pub trail : List Call

pub data Result (E A : Type 0) : Type 0 where
  ok : A → Result E A
  err : E → Result E A

abbrev pub Exec : Type 0 → Type 0 → Type 0
Exec E A = World → Result E A × World

infixl 5 ◌>>=◌ ◌>>◌
unfoldable pub ◌>>=◌ : {E A B : Type 0} → Exec E A → (A → Exec E B) → Exec E B
◌>>=◌ m f w = let p = m w in elim p.0 [ ok a ↦ f a p.1 | err e ↦ (err e, p.1) ]

abbrev pub ◌>>◌ : {E B : Type 0} → Exec E (Unit {0}) → Exec E B → Exec E B
m >> k = m >>= λ _. k

unfoldable pub pure : {E A : Type 0} → A → Exec E A
pure a w = (ok a, w)

unfoldable pub raise : {E A : Type 0} → E → Exec E A
raise e w = (err e, w)

unfoldable pub gets : {E A : Type 0} → (World → A) → Exec E A
gets f w = (ok (f w), w)

abbrev pub ok? : {E A : Type 0} → Result E A → Option A
ok? (ok a) = some a
ok? (err e) = none

abbrev pub ok_or : {E A : Type 0} → A → Result E A → A
ok_or d (ok a) = a
ok_or d (err e) = d

-- `x, err := f()` where the code then tests `err` without passing it on.
unfoldable pub attempt : {E F A : Type 0} → Exec E A → Exec F (Option A)
attempt m w = let p = m w in (ok (ok? p.0), p.1)

-- `x, _ := f()` with the zero value `d` of a failed call.
unfoldable pub or_zero : {E F A : Type 0} → A → Exec E A → Exec F A
or_zero d m w = let p = m w in (ok (ok_or d p.0), p.1)

-- `_ = f()`.
unfoldable pub ignore : {E F A : Type 0} → Exec E A → Exec F (Unit {0})
ignore m w = (ok tt, (m w).1)

-- One SQL statement: it fails as the schedule says, or has its effect.
abbrev pub statement_on : {A : Type 0} → List (Option String) → Exec RepoErr A → Exec RepoErr A
statement_on [] f w = f w
statement_on (none ∷ rest) f w = f (record w { faults = rest })
statement_on (some msg ∷ rest) f w = (err (failed msg), record w { faults = rest })

unfoldable pub statement : {A : Type 0} → Exec RepoErr A → Exec RepoErr A
statement f w = statement_on w.faults f w

-- `fmt.Errorf("…: %w", err)`; `ErrNotFound` is never wrapped.
abbrev pub wrap_err : String → RepoErr → RepoErr
wrap_err prefix not_found = not_found
wrap_err prefix (failed msg) = failed (prefix <> msg)

abbrev pub map_err : {E F A : Type 0} → (E → F) → Result E A → Result F A
map_err f (ok a) = ok a
map_err f (err e) = err (f e)

unfoldable pub wrapped : {A : Type 0} → String → Exec RepoErr A → Exec RepoErr A
wrapped prefix m w = let p = m w in (map_err (wrap_err prefix) p.0, p.1)

-- A constraint of the schema refuses the statement.
abbrev pub violation : RepoErr
violation = failed "constraint violation"

-- A text that is cast to a uuid and is none.
abbrev pub no_uuid : RepoErr
no_uuid = failed "invalid input syntax for type uuid"

unfoldable pub call_out : {E : Type 0} → Call → Exec E (Unit {0})
call_out c w = (ok tt, record w { trail = c ∷ w.trail })

-- The number of the next random value.
unfoldable pub draw : {E : Type 0} → Exec E ℕ
draw w = (ok w.draws, record w { draws = w.draws + 1 })

unfoldable pub put_db : {E : Type 0} → Db → Exec E (Unit {0})
put_db d w = (ok tt, record w { db = d })
