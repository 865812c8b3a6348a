-- ===== src/Tests/Accounts.antt =====
-- The theorems on accounts, applied to a user with an open verification.
use buktio.Base.{false, ◌≡◌, ◌⊎◌, refl, true, none, some, [], ◌∷◌, arith, find}
use buktio.Runtime.Rows.{User, EmailVerification}
use buktio.Runtime.World.{World, ok, err}
use buktio.Runtime.Facade.{tenant, subject_from}
use buktio.Runtime.Errors.{Error, actions, or_raise}
use buktio.Members.{AuthResult, new_session, user_dto}
use buktio.Members.Store.{has_email, create_session}
use buktio.Accounts.Store.{
  consume_email_verification, take_verification, mark_verified, get_user_by_id,
}
use buktio.Accounts.{invalid_token, is_right, register, resend_verification, login, verify_email}
use buktio.Accounts.Once.{verify_email_once}
use buktio.Accounts.Unverified.{sessions-need-verified}
use buktio.Audit.{
  is_recordable, audit, transaction, write_audit, audit_canonical, canonical_text, in_chain,
  insert_row, last_hash_from, lock_chain, set_row_hash, store_hash,
}
use buktio.Policies.{CreatePolicyInput, create_policy, set_policy_enabled, delete_policy}
use buktio.Policies.Lockout.{spares_owners, policies-spare_owners}
use buktio.Tests.{services, ctx, world, db}

sessions-need-verified_example :
    ((register services ctx "eve@x.test" "password" "Eve" "1.2.3.4" world).1.db.sessions
      ≡ world.db.sessions)
    × ((resend_verification services "eve@x.test" world).1.db.sessions ≡ world.db.sessions)
    × (((e : Error) × ((login services "eve@x.test" "password" world).0 ≡ err e))
        ⊎ ((u : User) × (find (has_email services "eve@x.test") world.db.users ≡ some u)
            × (u.email_verified ≡ true)
            × (is_right (services.lib.verify_password "password" u.password_hash) ≡ true)))
sessions-need-verified_example =
    sessions-need-verified services ctx "eve@x.test" "password" "Eve" "1.2.3.4" world

abbrev verification : EmailVerification
verification = record {
  user_id = "ann";
  token_hash = "hbk_verify_1";
  expires_at = 9;
  consumed_at = none;
}

abbrev waiting : World
waiting = record world { db = record db { verifications = verification ∷ [] } }

abbrev session : AuthResult
session = record {
  user = record { id = "ann"; email = "ann@acme.test"; full_name = "ann"; role = "admin" };
  session_token = "token";
  csrf_token = "token";
}

-- A minute later.
abbrev afterwards : World
afterwards = record world { db = (verify_email services ctx "bk_verify_1" waiting).1.db; now = 6 }

verified : (verify_email services ctx "bk_verify_1" waiting).0 ≡ ok session
unfolding is_recordable verify_email actions or_raise consume_email_verification take_verification
    mark_verified transaction get_user_by_id audit write_audit audit_canonical canonical_text
    in_chain insert_row last_hash_from lock_chain set_row_hash store_hash new_session user_dto
    create_session tenant subject_from
verified = refl

verify_email_once_example :
    (verify_email services ctx "bk_verify_1" afterwards).0 ≡ err invalid_token
verify_email_once_example =
    verify_email_once services ctx "bk_verify_1" waiting afterwards session verified refl
      (omega arith)

abbrev office_hours : CreatePolicyInput
office_hours = record {
  name = "office";
  template = "business_hours";
  config = ("tz", "UTC") ∷ [];
  roles = "viewer" ∷ [];
}

policies-spare_owners_example :
    (spares_owners (create_policy services ctx office_hours world).1.db.policies ≡ true)
    × (spares_owners (set_policy_enabled services ctx "p1" false world).1.db.policies ≡ true)
    × (spares_owners (delete_policy services ctx "p1" world).1.db.policies ≡ true)
policies-spare_owners_example =
    policies-spare_owners services ctx office_hours "p1" false world refl
