-- ===== src/Members.antt =====
-- The members of an organisation, its invitations, and the sessions of its users
-- (internal/service/members.go, auth.go).
pub mod Store
pub mod OwnerCount
pub mod Owners
pub mod Ceiling
pub mod Invites
pub mod Roles
pub mod Seats
pub mod Gaps
use Prim.Native.String.{len}
use buktio.Base.{
  ℕ, ◌+◌, ◌*◌, String, ◌<>◌, Bool, true, false, not, ◌&&◌, ◌||◌, Option, none, some, List, [], ◌∷◌,
  ltb, leb, str_eq, length, if◌then◌else◌,
}
use buktio.Base.Int.{pos, ltb_ℤ}
use buktio.Runtime.Rows.{User}
use buktio.Runtime.World.{
  World, text, failed, RepoErr, Result, Exec, ◌>>=◌, ◌>>◌, pure, raise, gets, attempt, or_zero,
  ignore, call_out, draw, send_invite,
}
use buktio.Runtime.Errors.{
  Error, validation_err, conflict_err, forbidden_err, unauthorized_err, map_repo_err, mapped,
  or_raise,
}
use buktio.Runtime.Facade.{
  Services, Context, hash_token, current_user_id, subject_from, tenant, target_of, current_user_id,
}
use buktio.Audit.{audit}
use buktio.Guard.{authorize}
use buktio.Validate.{valid_email}
use buktio.Members.Store.{
  Member, list_members, list_invitations, count_members, upsert_member, remove_membership,
  create_invitation, get_invitation_by_token, mark_invitation_accepted, get_user_by_email,
  count_users, create_user, touch_user_login, create_session,
}

-- A minute and a day, in nanoseconds.
abbrev pub minute : ℕ
minute = 60 * 1000000000

abbrev pub day : ℕ
day = 24 * 60 * minute

abbrev pub invite_ttl : ℕ
invite_ttl = 7 * day

abbrev pub session_ttl : ℕ
session_ttl = 7 * day

unfoldable pub valid_role : String → Bool
valid_role r = str_eq r "owner" || str_eq r "admin" || str_eq r "member" || str_eq r "viewer"

unfoldable pub role_rank : String → ℕ
role_rank r =
    if str_eq r "owner"
    then 3
    else if str_eq r "admin"
    then 2
    else if str_eq r "member"
    then 1
    else 0

unfoldable pub guard_role_ceiling : Context → String → Exec Error (Unit {0})
guard_role_ceiling ctx requested =
    if ltb (role_rank (subject_from ctx).0.role) (role_rank requested)
    then raise (forbidden_err "you cannot grant a role higher than your own")
    else pure tt

-- The loop of guardLastOwner: the owners, and whether the user is one of them.
unfoldable pub count_owners : String → List Member → ℕ × Bool
count_owners user [] = (0, false)
count_owners user (m ∷ ms) =
    let (owners, target) = count_owners user ms in
    if str_eq m.role "owner"
    then (owners + 1, str_eq m.user_id user || target)
    else (owners, target)

-- The members that cannot be listed count as none.
unfoldable pub guard_last_owner : String → String → Exec Error (Unit {0})
guard_last_owner org user = do
  members ← or_zero [] (list_members org)
  let (owners, target) = count_owners user members
  if leb owners 1 && target
      then raise (conflict_err "cannot remove or demote the last owner")
      else pure tt

unfoldable pub seat_limit_reached : Error
seat_limit_reached = record {
  code = "seat_limit_reached";
  message = "your plan's seat limit has been reached";
  http = 402;
}

pub record InviteResult : Type 0 where
  pub id : String
  pub email : String
  pub role : String
  pub expires_at : ℕ
  pub link : String

pub record UserDto : Type 0 where
  pub id : String
  pub email : String
  pub full_name : String
  pub role : String

pub record AuthResult : Type 0 where
  pub user : UserDto
  pub session_token : String
  pub csrf_token : String

unfoldable pub user_dto : User → UserDto
user_dto u = record {
  id = u.id;
  email = u.email;
  full_name = u.full_name;
  role = if u.is_platform_admin then "owner" else "admin";
}

-- An error of the random source or of the password hash, as `mapRepoErr` maps it.
abbrev pub or_internal : {A : Type 0} → Result String A → Exec Error A
or_internal (Result.ok a) = pure a
or_internal (Result.err msg) = raise (map_repo_err (failed msg))

module _ (s : Services) where
  abbrev pub new_token : Exec Error String
  new_token = do n ← draw; or_internal (s.lib.new_token n)

  unfoldable pub new_session : User → Exec Error AuthResult
  unfolding user_dto
  new_session u = do
    token ← new_token
    csrf ← new_token
    now ← gets (λ w. w.now)
    _ ← mapped (create_session s u.id (hash_token s token) (now + session_ttl))
    pure (record { user = user_dto u; session_token = token; csrf_token = csrf })

  -- The seats of the plan: members and pending invitations together. What cannot be counted counts
  -- as none.
  unfoldable pub guard_seats : String → Exec Error (Unit {0})
  guard_seats org =
      let lim = s.limit "seats" org in
      if lim.unlimited then pure tt else do
        members ← or_zero 0 (count_members org)
        invites ← or_zero [] (list_invitations org)
        if not (ltb_ℤ (pos (members + length invites)) lim.max)
            then raise seat_limit_reached
            else pure tt

  module _ (ctx : Context) where
    unfoldable pub invite_member : String → String → Exec Error InviteResult
    invite_member email role = do
      authorize s ctx "update" (target_of "member" "")
      if not (valid_email email) then raise (validation_err "invalid email address") else pure tt
      let role = if str_eq role "" then "member" else role
      if not (valid_role role)
          then raise (validation_err "role must be owner, admin, member, or viewer")
          else pure tt
      guard_role_ceiling ctx role
      let org = (tenant s ctx).org_id
      guard_seats org
      token ← new_token
      now ← gets (λ w. w.now)
      id ← mapped (
          create_invitation s org email role (hash_token s token) (current_user_id ctx)
            (now + invite_ttl))
      let link = s.public_base_url <> "/accept-invite?token=" <> token
      call_out (send_invite email link)
      audit s ctx "member.invite" "invitation" id
          (some (("email", text email) ∷ ("role", text role) ∷ []))
      pure (record {
        id = id;
        email = email;
        role = role;
        expires_at = now + invite_ttl;
        link = link;
      })

    unfoldable pub change_member_role : String → String → Exec Error (Unit {0})
    change_member_role user role = do
      authorize s ctx "update" (target_of "member" user)
      if not (valid_role role) then raise (validation_err "invalid role") else pure tt
      guard_role_ceiling ctx role
      let org = (tenant s ctx).org_id
      if not (str_eq role "owner") then guard_last_owner org user else pure tt
      mapped (upsert_member org user role)
      audit s ctx "member.role_change" "user" user (some (("role", text role) ∷ []))

    unfoldable pub remove_member : String → Exec Error (Unit {0})
    remove_member user = do
      authorize s ctx "delete" (target_of "member" user)
      let org = (tenant s ctx).org_id
      guard_last_owner org user
      mapped (remove_membership org user)
      audit s ctx "member.remove" "user" user none

    -- The user of an invitation: the one with its address, or a new one.
    unfoldable pub invited_user : String → String → String → Exec Error String
    invited_user email password full_name = do
      existing ← attempt (get_user_by_email s email)
      elim existing [
        | some u ↦ pure u.id
        | none ↦ do
          if ltb (len password) 8
              then raise (validation_err "password must be at least 8 characters")
              else pure tt
          n ← draw
          hash ← or_internal (s.lib.hash_password n password)
          mapped (create_user s email full_name hash false)
      ]

    unfoldable pub accept_invite : String → String → String → Exec Error AuthResult
    accept_invite token password full_name = do
      iv ←
          or_raise
            (record {
              code = "invalid_invite";
              message = "invitation is invalid or expired";
              http = 400;
            })
            (get_invitation_by_token (hash_token s token))
      user ← invited_user iv.email password full_name
      mapped (upsert_member iv.org_id user iv.role)
      ignore (mark_invitation_accepted iv.id)
      audit s ctx "member.accept_invite" "user" user
          (some (("org_id", text iv.org_id) ∷ ("role", text iv.role) ∷ []))
      new_session (record {
        id = user;
        email = iv.email;
        full_name = full_name;
        password_hash = "";
        is_platform_admin = false;
        email_verified = false;
        last_login_at = none;
        deleted = false;
      })
