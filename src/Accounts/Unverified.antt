-- ===== src/Accounts/Unverified.antt =====
-- A signup opens no session before its address is verified (internal/service/signup.go, auth.go).
use buktio.Base.{
  ℕ, ◌≡◌, ◌⊎◌, refl, String, true, not, ◌&&◌, Option, none, some, List, [], ◌∷◌, arith, str_eq,
  find, Bool-cases, inl, inr, if◌then◌else◌,
}
use buktio.Runtime.Rows.{Db, Session, User}
use buktio.Runtime.World.{
  World, Call, RepoErr, Result, ok, err, Exec, Metadata, ◌>>=◌, ◌>>◌, raise, draw, put_db, pure,
  ignore, call_out, send_verification, map_err,
}
use buktio.Runtime.Errors.{Error, unauthorized_err, actions, or_raise}
use buktio.Runtime.Facade.{Services, Context}
use buktio.Runtime.Holds.{
  Holds, holds_rules, Holds-pure, Holds-raise, Holds-statement, Holds-wrapped, Holds-ignore,
}
use buktio.Audit.{audit, transaction}
use buktio.Audit.Frame.{audit-Holds}
use buktio.Guard.Lookups.{Holds-row}
use buktio.Members.{AuthResult, new_session, or_internal}
use buktio.Members.Store.{has_email, get_user_by_email, touch_user_login}
use buktio.Accounts.Store.{
  insert_org, insert_project, insert_unverified_user, insert_owner, create_org_with_owner,
  create_email_verification, count_recent_signups, record_signup_attempt, unverified_user_by_email,
}
use buktio.Accounts.{
  is_right, email_not_verified, login, send_token, resend_to, resend_verification, guard_signups,
  new_account, new_or_known, register,
}

module _ (s : Services) (S : List Session) where
  Keeps : List Call → Db → Type 0
  Keeps trail db = db.sessions ≡ S

  Holds-or_raise :
      {A : Type 0} (e : Error) (m : Exec RepoErr A) → Holds Keeps m → Holds Keeps (or_raise e m)
  unfolding or_raise
  Holds-or_raise e m km = record { at = km.at }

  rolled_back :
      {A : Type 0} (r : Result RepoErr A) (v w : World)
      → v.db.sessions ≡ S
      → w.db.sessions ≡ S
      → (transaction (λ _. (r, v)) w).1.db.sessions ≡ S
  unfolding transaction
  rolled_back (ok a) v w h k = h
  rolled_back (err e) v w h k = k

  Holds-transaction :
      {A : Type 0} (m : Exec RepoErr A) → Holds Keeps m → Holds Keeps (transaction m)
  unfolding transaction Keeps
  Holds-transaction m km = record {
    at = λ w h. unfold rolled_back in rolled_back (m w).0 (m w).1 w (km.at w h) h;
  }

  insert_org-Holds : (name slug : String) → Holds Keeps (insert_org s name slug)
  unfolding insert_org raise ◌>>=◌ draw put_db pure Keeps
  insert_org-Holds name slug =
      Holds-wrapped _ _ (Holds-statement _ (record { at = λ w h. ground (arith, h) }))

  insert_project-Holds : (org : String) → Holds Keeps (insert_project s org)
  unfolding insert_project raise ◌>>=◌ draw put_db pure Keeps
  insert_project-Holds org =
      Holds-wrapped _ _ (Holds-statement _ (record { at = λ w h. ground (arith, h) }))

  insert_user-Holds :
      (email full_name hash : String) → Holds Keeps (insert_unverified_user s email full_name hash)
  unfolding insert_unverified_user raise ◌>>=◌ draw put_db pure Keeps
  insert_user-Holds email full_name hash =
      Holds-wrapped _ _ (Holds-statement _ (record { at = λ w h. ground (arith, h) }))

  insert_owner-Holds : (org user : String) → Holds Keeps (insert_owner s org user)
  unfolding insert_owner put_db Keeps
  insert_owner-Holds org user = Holds-wrapped _ _ (Holds-statement _ (record { at = λ w h. h }))

  create_org-Holds :
      (org_name slug email full_name hash : String)
      → Holds Keeps (create_org_with_owner s org_name slug email full_name hash)
  unfolding create_org_with_owner
  create_org-Holds org_name slug email full_name hash =
      search
        (
          holds_rules, Holds-transaction, insert_org-Holds, insert_project-Holds, insert_user-Holds,
          insert_owner-Holds,
        )
        depth 12

  create_verification-Holds :
      (user hash : String) (expires : ℕ) → Holds Keeps (create_email_verification user hash expires)
  unfolding create_email_verification raise put_db Keeps
  create_verification-Holds user hash expires =
      Holds-wrapped _ _ (Holds-statement _ (record { at = λ w h. ground (arith, h) }))

  count_recent-Holds : (ip : String) (since : ℕ) → Holds Keeps (count_recent_signups ip since)
  unfolding count_recent_signups
  count_recent-Holds ip since = search holds_rules

  record_attempt-Holds :
      {E : Type 0} (ip email : String) → Holds Keeps (record_signup_attempt {E = E} ip email)
  unfolding record_signup_attempt put_db Keeps
  record_attempt-Holds ip email = Holds-ignore _ (Holds-statement _ (record { at = λ w h. h }))

  get_user-Holds : (email : String) → Holds Keeps (get_user_by_email s email)
  unfolding get_user_by_email
  get_user-Holds email = search (holds_rules, Holds-row (λ w. find (has_email s email) w.db.users))

  unverified_user-Holds : (email : String) → Holds Keeps (unverified_user_by_email email)
  unfolding unverified_user_by_email
  unverified_user-Holds email = search (
    holds_rules,
    Holds-row (λ w.
        find (λ (u : User). str_eq u.email email && not u.email_verified && not u.deleted)
          w.db.users),
  )

  or_internal-Holds : {A : Type 0} (r : Result String A) → Holds Keeps (or_internal r)
  or_internal-Holds (ok a) = Holds-pure a
  or_internal-Holds (err msg) = Holds-raise _

  mailed :
      {E : Type 0} (email link : String)
      → Holds Keeps (call_out {E = E} (send_verification email link))
  unfolding call_out Keeps
  mailed email link = record { at = λ w h. h }

  send_token-Holds : (user email : String) → Holds Keeps (send_token s user email)
  unfolding send_token
  send_token-Holds user email = search (holds_rules, create_verification-Holds, mailed) depth 9

  resend_to-Holds : (email : String) (u : Option User) → Holds Keeps (resend_to s email u)
  unfolding resend_to
  resend_to-Holds email none = Holds-pure tt
  resend_to-Holds email (some u) = search (holds_rules, send_token-Holds)

  resend-Holds : (address : String) → Holds Keeps (resend_verification s address)
  unfolding resend_verification
  resend-Holds address = search (holds_rules, unverified_user-Holds, resend_to-Holds) depth 9

  guard_signups-Holds : (ip : String) → Holds Keeps (guard_signups s ip)
  unfolding guard_signups
  guard_signups-Holds ip = search (holds_rules, count_recent-Holds) depth 9

  module _ (ctx : Context) where
    audited :
        (action target id : String) (metadata : Option Metadata)
        → Holds Keeps (audit s {E = Error} ctx action target id metadata)
    unfolding Keeps
    audited action target id metadata = audit-Holds s ctx action target id metadata (λ ev t d h. h)

    new_account-Holds :
        (email password org_name : String) → Holds Keeps (new_account s ctx email password org_name)
    unfolding new_account
    new_account-Holds email password org_name =
        search
          (
            holds_rules, Holds-or_raise, create_org-Holds, or_internal-Holds, send_token-Holds,
            audited,
          )
          depth 12

    new_or_known-Holds :
        (email password org_name : String) (u : Option User)
        → Holds Keeps (new_or_known s ctx email password org_name u)
    unfolding new_or_known
    new_or_known-Holds email password org_name (some u) = Holds-pure _
    new_or_known-Holds email password org_name none = new_account-Holds email password org_name

    register-Holds :
        (address password org_name ip : String)
        → Holds Keeps (register s ctx address password org_name ip)
    unfolding register
    register-Holds address password org_name ip =
        search
          (
            holds_rules, guard_signups-Holds, record_attempt-Holds, get_user-Holds,
            new_or_known-Holds,
          )
          depth 14

-- The query for a user by address, whether it fails or not.
looked_up :
    (s : Services) (email : String) (faults : List (Option String)) (w : World) (u : User)
    → w.faults ≡ faults
    → (get_user_by_email s email w).0 ≡ ok u
    → find (has_email s email) w.db.users ≡ some u
unfolding get_user_by_email actions
looked_up s email [] w u f h = ground (arith, f, h)
looked_up s email (none ∷ rest) w u f h = ground (arith, f, h)
looked_up s email (some msg ∷ rest) w u f h = ground (arith, f, h)

module _ (s : Services) (password : String) where
  -- What login does with the user that it found.
  abbrev signed_in : User → Exec Error AuthResult
  signed_in u = do
    if not (is_right (s.lib.verify_password password u.password_hash))
        then raise unauthorized_err
        else pure tt
    if not u.email_verified then raise email_not_verified else pure tt
    ignore (touch_user_login s u.id)
    new_session s u

  checked :
      (u : User) (w : World) (a : AuthResult)
      → (signed_in u w).0 ≡ ok a
      → (u.email_verified ≡ true)
        × (is_right (s.lib.verify_password password u.password_hash) ≡ true)
  unfolding ◌>>=◌ raise pure
  checked u w a h = elim (Bool-cases (is_right (s.lib.verify_password password u.password_hash))) [
    | inr wrong ↦ absurd (ground (arith, h, wrong))
    | inl right ↦ elim (Bool-cases u.email_verified) [
      | inl verified ↦ (verified, right)
      | inr open' ↦ absurd (ground (arith, h, right, open'))
    ]
  ]

  from_lookup :
      (r : Result RepoErr User) (v : World) (a : AuthResult)
      → (((λ (_ : World). (map_err (λ _. unauthorized_err) r, v)) >>= signed_in) v).0 ≡ ok a
      → (u : User) × (r ≡ ok u) × ((signed_in u v).0 ≡ ok a)
  unfolding ◌>>=◌
  from_lookup (ok u) v a h = (u, refl, h)
  from_lookup (err e) v a h = absurd (ground (arith, h))

  login_lem :
      (email : String) (w : World) (a : AuthResult)
      → (login s email password w).0 ≡ ok a
      → (u : User) × (find (has_email s email) w.db.users ≡ some u)
        × (u.email_verified ≡ true)
        × (is_right (s.lib.verify_password password u.password_hash) ≡ true)
  unfolding login or_raise ◌>>=◌
  login_lem email w a h =
      let found = get_user_by_email s email w in
      let (u, e, k) = from_lookup found.0 found.1 a h in
      let (verified, right) = checked u found.1 a k in
      (u, looked_up s email w.faults w u refl e, verified, right)

  -- By the login's result.
  by_result :
      (email : String) (w : World) (r : Result Error AuthResult)
      → (login s email password w).0 ≡ r
      → ((e : Error) × (r ≡ err e))
        ⊎ ((u : User) × (find (has_email s email) w.db.users ≡ some u)
            × (u.email_verified ≡ true)
            × (is_right (s.lib.verify_password password u.password_hash) ≡ true))
  by_result email w (ok a) h = inr (login_lem email w a h)
  by_result email w (err e) h = inl (e, refl)

-- Whatever statement fails: a signup and a second mail of its link open no session, and a login
-- fails, or it has found a live user of the address whose address is verified and whose password it
-- is.
pub sessions-need-verified :
    (s : Services) (ctx : Context) (email password org_name ip : String) (w : World)
    → ((register s ctx email password org_name ip w).1.db.sessions ≡ w.db.sessions)
      × ((resend_verification s email w).1.db.sessions ≡ w.db.sessions)
      × (((e : Error) × ((login s email password w).0 ≡ err e))
          ⊎ ((u : User) × (find (has_email s email) w.db.users ≡ some u)
              × (u.email_verified ≡ true)
              × (is_right (s.lib.verify_password password u.password_hash) ≡ true)))
unfolding Keeps
sessions-need-verified s ctx email password org_name ip w = (
  (register-Holds s w.db.sessions ctx email password org_name ip).at w refl,
  (resend-Holds s w.db.sessions email).at w refl,
  by_result s password email w _ refl,
)
