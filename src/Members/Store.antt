-- ===== src/Members/Store.antt =====
-- The statements on users, memberships, invitations and sessions
-- (internal/repository/members.go, users.go).
use buktio.Base.{
  ℕ, String, Bool, true, false, not, ◌&&◌, ◌||◌, none, some, List, [], ◌∷◌, ◌++◌, ltb, str_eq,
  length, select, find, any, update_where, if◌then◌else◌,
}
use buktio.Runtime.Rows.{User, Membership, InvitationRow, Session}
use buktio.Runtime.World.{
  RepoErr, violation, no_uuid, Exec, ◌>>=◌, ◌>>◌, pure, raise, gets, statement, wrapped, put_db,
  draw,
}
use buktio.Runtime.Facade.{Services}
use buktio.Guard.{row_or_not_found}

-- repository.Member: a membership joined with its user.
pub record Member : Type 0 where
  pub user_id : String
  pub email : String
  pub full_name : String
  pub role : String

-- repository.Invitation
pub record Invitation : Type 0 where
  pub id : String
  pub org_id : String
  pub email : String
  pub role : String
  pub expires_at : ℕ

abbrev pub live_user : String → User → Bool
live_user id u = str_eq u.id id && not u.deleted

abbrev pub is_membership : String → String → Membership → Bool
is_membership org user m = str_eq m.org_id org && str_eq m.user_id user

-- `JOIN users u ON u.id = om.user_id AND u.deleted_at IS NULL WHERE om.org_id = $1`
unfoldable pub joined : String → List User → List Membership → List Member
joined org users [] = []
joined org users (m ∷ ms) =
    let rest = joined org users ms in
    if str_eq m.org_id org
    then elim (find (live_user m.user_id) users) [
      | none ↦ rest
      | some u ↦
          record { user_id = u.id; email = u.email; full_name = u.full_name; role = m.role } ∷ rest
    ]
    else rest

unfoldable pub list_members : String → Exec RepoErr (List Member)
unfolding joined
list_members org =
    wrapped "repository: list members: "
      (statement (gets (λ w. joined org w.db.users w.db.members)))

-- `ON CONFLICT (org_id, user_id) DO UPDATE SET role`
unfoldable pub upserted : String → String → String → List Membership → List Membership
upserted org user role ms =
    if any (is_membership org user) ms
    then update_where (is_membership org user) (λ m. record m { role = role }) ms
    else ms ++ record { org_id = org; user_id = user; role = role } ∷ []

-- The organisation and the user must have a row (foreign keys).
unfoldable pub upsert_row : String → String → String → Exec RepoErr (Unit {0})
unfolding upserted
upsert_row org user role w =
    (if any (λ o. str_eq o.id org) w.db.organizations
          && any (λ (u : User). str_eq u.id user) w.db.users
        then put_db (record w.db { members = upserted org user role w.db.members })
        else raise violation)
      w

-- The caller's text for the user is cast (`$2::uuid`).
unfoldable pub upsert_member : String → String → String → Exec RepoErr (Unit {0})
unfolding upsert_row
upsert_member org user role = wrapped "repository: upsert member: " (
    statement
      (λ w. elim (w.db.uuid user) [ none ↦ raise no_uuid w | some id ↦ upsert_row org id role w ]))

-- The members without the one of a user.
abbrev pub without : String → String → List Membership → List Membership
without org user ms = select (λ m. not (is_membership org user m)) ms

-- `DELETE … WHERE org_id=$1::uuid AND user_id=$2::uuid`
unfoldable pub remove_membership : String → String → Exec RepoErr (Unit {0})
remove_membership org user = statement (λ w. elim (w.db.uuid user) [
  | none ↦ raise no_uuid w
  | some id ↦ put_db (record w.db { members = without org id w.db.members }) w
])

unfoldable pub count_members : String → Exec RepoErr ℕ
count_members org =
    statement (gets (λ w. length (select (λ (m : Membership). str_eq m.org_id org) w.db.members)))

unfoldable pub as_invitation : InvitationRow → Invitation
as_invitation i = record {
  id = i.id;
  org_id = i.org_id;
  email = i.email;
  role = i.role;
  expires_at = i.expires_at;
}

-- `accepted_at IS NULL AND expires_at > now()`
unfoldable pub is_pending : ℕ → InvitationRow → Bool
is_pending now i = not i.accepted && ltb now i.expires_at

abbrev pub to_invitations : List InvitationRow → List Invitation
to_invitations [] = []
to_invitations (i ∷ is) = as_invitation i ∷ to_invitations is

unfoldable pub list_invitations : String → Exec RepoErr (List Invitation)
unfolding as_invitation is_pending
list_invitations org = wrapped "repository: list invitations: " (
    statement (
      gets (λ w.
        to_invitations (select (λ i. str_eq i.org_id org && is_pending w.now i) w.db.invitations))))

unfoldable pub get_invitation_by_token : String → Exec RepoErr Invitation
unfolding as_invitation is_pending
get_invitation_by_token hash = wrapped "repository: get invitation: " (
    statement (λ w.
      (do
        i ←
            row_or_not_found
              (find (λ i. str_eq i.token_hash hash && is_pending w.now i) w.db.invitations)
        pure (as_invitation i))
        w))

unfoldable pub mark_invitation_accepted : String → Exec RepoErr (Unit {0})
mark_invitation_accepted id = statement (λ w.
    put_db
      (record w.db {
        invitations =
            update_where (λ (i : InvitationRow). str_eq i.id id) (λ i. record i { accepted = true })
              w.db.invitations;
      })
      w)

module _ (s : Services) where
  -- The token's hash is unique, and the organisation and the user who invites, where there is one,
  -- have rows.
  unfoldable pub create_invitation :
      String → String → String → String → String → ℕ → Exec RepoErr String
  create_invitation org email role hash invited_by expires =
      wrapped "repository: create invitation: " (
        statement (λ w.
          (if not (any (λ o. str_eq o.id org) w.db.organizations)
                || any (λ (i : InvitationRow). str_eq i.token_hash hash) w.db.invitations
                || not (str_eq invited_by "")
                  && not (any (λ (u : User). str_eq u.id invited_by) w.db.users)
              then raise violation
              else do
                n ← draw
                let id = s.lib.new_uuid n
                put_db (record w.db {
                  invitations =
                      record {
                        id = id;
                        org_id = org;
                        email = email;
                        role = role;
                        token_hash = hash;
                        invited_by = invited_by;
                        expires_at = expires;
                        accepted = false;
                      }
                      ∷ w.db.invitations;
                })
                pure id)
            w))

  -- An address is compared in lower case.
  abbrev pub has_email : String → User → Bool
  has_email email u = str_eq (s.lib.to_lower u.email) (s.lib.to_lower email) && not u.deleted

  unfoldable pub get_user_by_email : String → Exec RepoErr User
  get_user_by_email email =
      wrapped "repository: get user: "
        (statement (λ w. row_or_not_found (find (has_email email) w.db.users) w))

  unfoldable pub count_users : Exec RepoErr ℕ
  count_users = statement (gets (λ w. length (select (λ (u : User). not u.deleted) w.db.users)))

  -- The address is unique among the live users; a user is verified by default.
  unfoldable pub create_user : String → String → String → Bool → Exec RepoErr String
  create_user email full_name password_hash platform_admin = wrapped "repository: create user: " (
      statement (λ w.
        (if any (has_email email) w.db.users then raise violation else do
          n ← draw
          let id = s.lib.new_uuid n
          put_db (record w.db {
            users =
                w.db.users
                ++ record {
                  id = id;
                  email = email;
                  full_name = full_name;
                  password_hash = password_hash;
                  is_platform_admin = platform_admin;
                  email_verified = true;
                  last_login_at = none;
                  deleted = false;
                }
                  ∷ [];
          })
          pure id)
          w))

  unfoldable pub touch_user_login : String → Exec RepoErr (Unit {0})
  touch_user_login id = statement (λ w.
      put_db
        (record w.db {
          users =
              update_where (λ (u : User). str_eq u.id id)
                (λ u. record u { last_login_at = some w.now }) w.db.users;
        })
        w)

  unfoldable pub create_session : String → String → ℕ → Exec RepoErr String
  create_session user hash expires = wrapped "repository: create session: " (
      statement (λ w.
        (if not (any (λ (u : User). str_eq u.id user) w.db.users)
              || any (λ (t : Session). str_eq t.token_hash hash) w.db.sessions
            then raise violation
            else do
              n ← draw
              let id = s.lib.new_uuid n
              put_db (record w.db {
                sessions =
                    record {
                      id = id;
                      user_id = user;
                      token_hash = hash;
                      expires_at = expires;
                      revoked = false;
                    }
                    ∷ w.db.sessions;
              })
              pure id)
          w))
