-- ===== src/Accounts.antt =====
-- Accounts: the first administrator, logins and sessions (internal/service/auth.go), and signups
-- with verified addresses (internal/service/signup.go).
pub mod Store
pub mod Tokens
pub mod Once
pub mod Unverified
use Prim.Native.String.{len}
use buktio.Base.{
  ℕ, ◌+◌, ◌-◌, ◌*◌, String, ◌<>◌, Bool, true, false, not, ◌&&◌, Option, none, some, List, [], ◌∷◌,
  ltb, leb, str_eq, if◌then◌else◌,
}
use buktio.Runtime.Rows.{User}
use buktio.Runtime.World.{
  text, RepoErr, Result, ok, err, ok_or, Exec, ◌>>=◌, ◌>>◌, pure, raise, gets, attempt, or_zero,
  ignore, call_out, draw, send_verification,
}
use buktio.Runtime.Errors.{Error, validation_err, conflict_err, unauthorized_err, mapped, or_raise}
use buktio.Runtime.Facade.{Services, Context, hash_token}
use buktio.Audit.{audit}
use buktio.Validate.{valid_email}
use buktio.Members.{AuthResult, new_session, new_token, or_internal, minute, day}
use buktio.Members.Store.{
  get_user_by_email, count_users, create_user, touch_user_login, upsert_member,
}
use buktio.Accounts.Store.{
  get_user_by_id, get_user_by_session_token, revoke_session_by_token, set_install_step,
  create_org_with_owner, create_email_verification, consume_email_verification,
  count_recent_signups, record_signup_attempt, unverified_user_by_email,
}

abbrev pub signup_window : ℕ
signup_window = 60 * minute

abbrev pub signup_per_ip : ℕ
signup_per_ip = 5

abbrev pub verify_token_ttl : ℕ
verify_token_ttl = day

abbrev pub verify_token_prefix : String
verify_token_prefix = "bk_verify_"

pub record SignupResult : Type 0 where
  pub user_id : String
  pub verification_sent : Bool
  pub verification_token : String

abbrev pub signup_disabled : Error
signup_disabled = record {
  code = "signup_disabled";
  message = "self-serve signup is not enabled";
  http = 404;
}

abbrev pub rate_limited : Error
rate_limited = record {
  code = "rate_limited";
  message = "too many signups from this address; try again later";
  http = 429;
}

abbrev pub invalid_token : Error
invalid_token = record {
  code = "invalid_token";
  message = "the verification link is invalid or has expired";
  http = 400;
}

abbrev pub email_not_verified : Error
email_not_verified = record {
  code = "email_not_verified";
  message = "please verify your email before signing in";
  http = 403;
}

abbrev pub setup_already_complete : Error
setup_already_complete = record {
  code = "setup_already_complete";
  message = "an admin account already exists";
  http = 409;
}

-- `err != nil || !ok`
abbrev pub is_right : Result String Bool → Bool
is_right (ok b) = b
is_right (err msg) = false

module _ (s : Services) where
  unfoldable pub setup_initialized : Exec Error Bool
  setup_initialized = do n ← mapped (count_users s); pure (ltb 0 n)

  unfoldable pub login : String → String → Exec Error AuthResult
  login email password = do
    u ← or_raise unauthorized_err (get_user_by_email s email)
    if not (is_right (s.lib.verify_password password u.password_hash))
        then raise unauthorized_err
        else pure tt
    if not u.email_verified then raise email_not_verified else pure tt
    ignore (touch_user_login s u.id)
    new_session s u

  unfoldable pub logout : String → Exec RepoErr (Unit {0})
  logout token = if str_eq token "" then pure tt else revoke_session_by_token (hash_token s token)

  unfoldable pub session_user : String → Exec RepoErr User
  session_user token = get_user_by_session_token (hash_token s token)

  unfoldable pub signup_enabled : Bool
  signup_enabled = s.self_serve_signup && s.allowed "self_serve_signup" ""

  unfoldable pub verify_link : String → String
  verify_link token = s.lib.trim_slashes s.public_base_url <> "/signup/verify?token=" <> token

  -- A fresh token for a user, which is mailed.
  unfoldable pub send_token : String → String → Exec Error String
  unfolding verify_link
  send_token user email = do
    n ← draw
    let token = verify_token_prefix <> ok_or "" (s.lib.new_token n)
    now ← gets (λ w. w.now)
    mapped (create_email_verification user (hash_token s token) (now + verify_token_ttl))
    call_out (send_verification email (verify_link token))
    pure token

  -- Nothing is told of an address that has no unverified account.
  unfoldable pub resend_to : String → Option User → Exec Error (Unit {0})
  unfolding send_token
  resend_to email none = pure tt
  resend_to email (some user) = do _ ← send_token user.id email; pure tt

  unfoldable pub resend_verification : String → Exec Error (Unit {0})
  unfolding signup_enabled resend_to
  resend_verification address = if not signup_enabled then raise signup_disabled else do
    let email = s.lib.trim_space (s.lib.to_lower address)
    u ← attempt (unverified_user_by_email email)
    resend_to email u

  -- The limit of signups from an address; what cannot be counted counts as none.
  unfoldable pub guard_signups : String → Exec Error (Unit {0})
  guard_signups ip = if str_eq ip "" then pure tt else do
    now ← gets (λ w. w.now)
    n ← or_zero 0 (count_recent_signups ip (now - signup_window))
    if leb signup_per_ip n then raise rate_limited else pure tt

  module _ (ctx : Context) where
    unfoldable pub create_admin : String → String → String → Exec Error AuthResult
    create_admin email password full_name = do
      n ← mapped (count_users s)
      if ltb 0 n then raise setup_already_complete else pure tt
      if not (valid_email email) then raise (validation_err "invalid email address") else pure tt
      if ltb (len password) 8
          then raise (validation_err "password must be at least 8 characters")
          else pure tt
      k ← draw
      hash ← or_internal (s.lib.hash_password k password)
      id ← mapped (create_user s email full_name hash true)
      ignore (upsert_member s.org_id id "owner")
      ignore (set_install_step "completed")
      audit s ctx "auth.create_admin" "user" id (some (("email", text email) ∷ []))
      new_session s (record {
        id = id;
        email = email;
        full_name = full_name;
        password_hash = "";
        is_platform_admin = true;
        email_verified = false;
        last_login_at = none;
        deleted = false;
      })

    -- A new account, where the address has none.
    unfoldable pub new_account : String → String → String → Exec Error SignupResult
    unfolding send_token
    new_account email password org_name = do
      k ← draw
      hash ← or_internal (s.lib.hash_password k password)
      d ← draw
      user ←
          or_raise (conflict_err "could not create the organization (the name may be taken)")
            (create_org_with_owner s org_name (s.lib.org_slug org_name d) email "" hash)
      token ← send_token user email
      audit s ctx "auth.signup" "user" user
          (some (("email", text email) ∷ ("org", text org_name) ∷ []))
      pure (record {
        user_id = user;
        verification_sent = true;
        verification_token = if s.signup_dev_return_token then token else "";
      })

    -- A known address is answered like a new one.
    unfoldable pub new_or_known : String → String → String → Option User → Exec Error SignupResult
    unfolding new_account
    new_or_known email password org_name (some u) =
        pure (record { user_id = ""; verification_sent = true; verification_token = "" })
    new_or_known email password org_name none = new_account email password org_name

    unfoldable pub register : String → String → String → String → Exec Error SignupResult
    unfolding signup_enabled guard_signups new_or_known
    register address password org_name ip = if not signup_enabled then raise signup_disabled else do
      let email = s.lib.trim_space (s.lib.to_lower address)
      if not (valid_email email) then raise (validation_err "invalid email address") else pure tt
      if ltb (len password) 8
          then raise (validation_err "password must be at least 8 characters")
          else pure tt
      if str_eq (s.lib.trim_space org_name) ""
          then raise (validation_err "organization name is required")
          else pure tt
      guard_signups ip
      record_signup_attempt ip email
      known ← attempt (get_user_by_email s email)
      new_or_known email password org_name known

    unfoldable pub verify_email : String → Exec Error AuthResult
    verify_email token = do
      user ← or_raise invalid_token (consume_email_verification (hash_token s token))
      u ← mapped (get_user_by_id user)
      audit s ctx "auth.verify_email" "user" user (some (("email", text u.email) ∷ []))
      new_session s u
