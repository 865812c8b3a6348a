-- ===== src/Accounts/Store.antt =====
-- The statements on accounts: users and sessions (internal/repository/users.go), signups
-- (signup.go) and API tokens (api_tokens.go). The project that a signup creates is in no table
-- here.
use buktio.Base.{
  ℕ, String, Bool, true, false, not, ◌&&◌, ◌||◌, Option, none, some, List, [], ◌∷◌, ◌++◌, ltb, leb,
  str_eq, length, select, find, any, update_where, if◌then◌else◌,
}
use buktio.Runtime.Rows.{User, Session, Organization, EmailVerification, SignupAttempt}
use buktio.Runtime.World.{
  RepoErr, violation, Exec, ◌>>=◌, ◌>>◌, pure, raise, gets, ignore, statement, wrapped, put_db,
  draw,
}
use buktio.Runtime.Facade.{Services}
use buktio.Audit.{transaction}
use buktio.Guard.{row_or_not_found}
use buktio.Members.Store.{live_user, has_email}

unfoldable pub get_user_by_id : String → Exec RepoErr User
get_user_by_id id =
    wrapped "repository: get user by id: "
      (statement (λ w. row_or_not_found (find (live_user id) w.db.users) w))

-- The live user of the first row that passes a test (`JOIN users`).
abbrev pub user_of : {A : Type 0} → (A → Bool) → (A → String) → List A → List User → Option User
user_of p id [] users = none
user_of p id (x ∷ xs) users =
    let rest = user_of p id xs users in
    if p x then (elim (find (live_user (id x)) users) [ none ↦ rest | some u ↦ some u ]) else rest

-- `token_hash=$1 AND revoked_at IS NULL AND expires_at > now()`
abbrev pub valid_session : ℕ → String → Session → Bool
valid_session now hash t = str_eq t.token_hash hash && not t.revoked && ltb now t.expires_at

unfoldable pub get_user_by_session_token : String → Exec RepoErr User
get_user_by_session_token hash = wrapped "repository: get session: " (
    statement (λ w.
      row_or_not_found
        (user_of (valid_session w.now hash) (λ t. t.user_id) w.db.sessions w.db.users) w))

unfoldable pub revoke_session_by_token : String → Exec RepoErr (Unit {0})
revoke_session_by_token hash = statement (λ w.
    put_db
      (record w.db {
        sessions =
            update_where (λ t. str_eq t.token_hash hash) (λ t. record t { revoked = true })
              w.db.sessions;
      })
      w)

unfoldable pub revoke_all_user_sessions : String → Exec RepoErr (Unit {0})
revoke_all_user_sessions user = statement (λ w.
    put_db
      (record w.db {
        sessions =
            update_where (λ t. str_eq t.user_id user && not t.revoked)
              (λ t. record t { revoked = true }) w.db.sessions;
      })
      w)

unfoldable pub soft_delete_user : String → Exec RepoErr (Unit {0})
soft_delete_user id = statement (λ w.
    put_db
      (record w.db {
        users = update_where (live_user id) (λ u. record u { deleted = true }) w.db.users;
      })
      w)

-- install_state is in no table here.
unfoldable pub set_install_step : String → Exec RepoErr (Unit {0})
set_install_step step = statement (pure tt)

module _ (s : Services) where
  -- The statements of CreateOrgWithOwner, each with its constraint.
  unfoldable pub insert_org : String → String → Exec RepoErr String
  insert_org name slug = wrapped "repository: create org: " (
      statement (λ w.
        (if any (λ (o : Organization). str_eq o.slug slug && not o.deleted) w.db.organizations
            then raise violation
            else do
              n ← draw
              let id = s.lib.new_uuid n
              put_db (record w.db {
                organizations =
                    w.db.organizations
                    ++ record {
                      id = id;
                      name = name;
                      slug = slug;
                      status = "active";
                      suspended_at = none;
                      suspend_reason = "";
                      quota_max_bytes = none;
                      deleted = false;
                    }
                      ∷ [];
              })
              pure id)
          w))

  unfoldable pub insert_project : String → Exec RepoErr String
  insert_project org =
      wrapped "repository: create project: " (statement (do n ← draw; pure (s.lib.new_uuid n)))

  unfoldable pub insert_unverified_user : String → String → String → Exec RepoErr String
  insert_unverified_user email full_name hash = wrapped "repository: create user: " (
      statement (λ w.
        (if any (has_email s email) w.db.users then raise violation else do
          n ← draw
          let id = s.lib.new_uuid n
          put_db (record w.db {
            users =
                w.db.users
                ++ record {
                  id = id;
                  email = email;
                  full_name = full_name;
                  password_hash = hash;
                  is_platform_admin = false;
                  email_verified = false;
                  last_login_at = none;
                  deleted = false;
                }
                  ∷ [];
          })
          pure id)
          w))

  unfoldable pub insert_owner : String → String → Exec RepoErr (Unit {0})
  insert_owner org user = wrapped "repository: create membership: " (
      statement (λ w.
        put_db
          (record w.db {
            members = w.db.members ++ record { org_id = org; user_id = user; role = "owner" } ∷ [];
          })
          w))

  unfoldable pub create_org_with_owner :
      String → String → String → String → String → Exec RepoErr String
  unfolding insert_org insert_project insert_unverified_user insert_owner
  create_org_with_owner org_name slug email full_name hash = transaction (do
    wrapped "repository: signup begin: " (statement (pure tt))
    org ← insert_org org_name slug
    _ ← insert_project org
    user ← insert_unverified_user email full_name hash
    insert_owner org user
    wrapped "repository: signup commit: " (statement (pure tt))
    pure user)

unfoldable pub create_email_verification : String → String → ℕ → Exec RepoErr (Unit {0})
create_email_verification user hash expires = wrapped "repository: create email verification: " (
    statement (λ w.
      (if not (any (λ (u : User). str_eq u.id user) w.db.users)
            || any (λ (v : EmailVerification). str_eq v.token_hash hash) w.db.verifications
          then raise violation
          else put_db (record w.db {
            verifications =
                record {
                  user_id = user;
                  token_hash = hash;
                  expires_at = expires;
                  consumed_at = none;
                }
                ∷ w.db.verifications;
          }))
        w))

-- `token_hash=$1 AND consumed_at IS NULL AND expires_at > now()`
abbrev pub open_verification : ℕ → String → EmailVerification → Bool
open_verification now hash v =
    str_eq v.token_hash hash
    && elim v.consumed_at [ none ↦ true | some t ↦ false ]
    && ltb now v.expires_at

-- `UPDATE … SET consumed_at=now() … RETURNING user_id`
unfoldable pub take_verification : String → Exec RepoErr String
take_verification hash = wrapped "repository: consume verification: " (
    statement (λ w.
      (do
        v ← row_or_not_found (find (open_verification w.now hash) w.db.verifications)
        put_db (record w.db {
          verifications =
              update_where (open_verification w.now hash)
                (λ v. record v { consumed_at = some w.now }) w.db.verifications;
        })
        pure v.user_id)
        w))

unfoldable pub mark_verified : String → Exec RepoErr (Unit {0})
mark_verified user = wrapped "repository: mark verified: " (
    statement (λ w.
      put_db
        (record w.db {
          users =
              update_where (λ (u : User). str_eq u.id user)
                (λ u. record u { email_verified = true }) w.db.users;
        })
        w))

unfoldable pub consume_email_verification : String → Exec RepoErr String
unfolding take_verification mark_verified
consume_email_verification hash = transaction (do
  wrapped "repository: verify begin: " (statement (pure tt))
  user ← take_verification hash
  mark_verified user
  wrapped "repository: verify commit: " (statement (pure tt))
  pure user)

unfoldable pub count_recent_signups : String → ℕ → Exec RepoErr ℕ
count_recent_signups ip since = wrapped "repository: count signups: " (
    statement (
      gets (λ w. length (
        select (λ (a : SignupAttempt). str_eq a.ip ip && leb since a.created_at)
          w.db.signup_attempts))))

-- The error of the statement is nobody's.
unfoldable pub record_signup_attempt : {E : Type 0} → String → String → Exec E (Unit {0})
record_signup_attempt ip email = ignore (
    statement (λ w.
      put_db
        (record w.db {
          signup_attempts =
              record { ip = ip; email = email; created_at = w.now } ∷ w.db.signup_attempts;
        })
        w))

unfoldable pub unverified_user_by_email : String → Exec RepoErr User
unverified_user_by_email email = wrapped "repository: unverified user: " (
    statement (λ w.
      row_or_not_found
        (find (λ (u : User). str_eq u.email email && not u.email_verified && not u.deleted)
          w.db.users)
        w))
