-- ===== src/Members/Gaps.antt =====
-- Changing and removing members beside the guards (internal/service/members.go).
use buktio.Base.{
  ◌≤◌, ◌≡◌, String, true, false, not, ◌&&◌, none, some, [], ◌∷◌, arith, str_eq, leb, any, ◌||◌,
  if◌then◌else◌,
}
use buktio.Runtime.Rows.{User}
use buktio.Runtime.World.{World, ok, text}
use buktio.Runtime.Errors.{Error, actions}
use buktio.Runtime.Facade.{Services, Context, subject_from, target_of, tenant}
use buktio.Audit.Frame.{audit-db, audit-ok}
use buktio.Guard.{authorize}
use buktio.Members.Store.{
  joined, list_members, upserted, upsert_row, upsert_member, without, remove_membership,
}
use buktio.Members.{
  count_owners, role_rank, guard_last_owner, guard_role_ceiling, valid_role, change_member_role,
  remove_member,
}
use buktio.Members.Owners.{guard_decides}
use buktio.Members.OwnerCount.{owners_of, owners_any_user}
use buktio.Members.Roles.{role_of, role_of-upserted}

-- The guard fails open: where the statement that lists the members is the one that fails, an actor
-- with the permission removes any member, the last owner too, and is told that it succeeded. The
-- row is the one of the id that the database reads.
pub remove_member_fails_open :
    (s : Services) (ctx : Context) (user id msg : String) (w : World)
    → w.faults ≡ some msg ∷ []
    → w.db.uuid user ≡ some id
    → (s.can (subject_from ctx).0 "delete" (target_of "member" user)).allowed ≡ true
    → ((remove_member s ctx user w).0 ≡ ok tt)
      × ((remove_member s ctx user w).1.db.members ≡ without (tenant s ctx).org_id id w.db.members)
unfolding remove_member remove_membership guard_last_owner list_members count_owners authorize
    actions
remove_member_fails_open s ctx user id msg w f canonical h =
    let org = (tenant s ctx).org_id in
    let w' = record w { faults = []; db = record w.db { members = without org id w.db.members } } in
    (
      ground (arith, audit-ok s ctx "member.remove" "user" user none {E = Error} w'),
      ground (arith, audit-db s ctx "member.remove" "user" user none Error w'),
    )

-- The guard compares the caller's text for the user, the statement the id that the database reads
-- from it. Where no statement fails and no listed owner has that text for an id (it may be the
-- owner's id in capitals), an actor with the permission removes the row of the id that is read, the
-- one of the last owner too, and is told that it succeeded.
pub remove_member_respelled :
    (s : Services) (ctx : Context) (user id : String) (w : World)
    → w.faults ≡ []
    → w.db.uuid user ≡ some id
    → (count_owners user (joined (tenant s ctx).org_id w.db.users w.db.members)).1 ≡ false
    → (s.can (subject_from ctx).0 "delete" (target_of "member" user)).allowed ≡ true
    → ((remove_member s ctx user w).0 ≡ ok tt)
      × ((remove_member s ctx user w).1.db.members ≡ without (tenant s ctx).org_id id w.db.members)
unfolding remove_member remove_membership authorize actions
remove_member_respelled s ctx user id w f read unlisted h =
    let org = (tenant s ctx).org_id in
    let w' = record w { db = record w.db { members = without org id w.db.members } } in
    let decided = guard_decides org user w f in
    (
      ground (arith, decided, audit-ok s ctx "member.remove" "user" user none {E = Error} w'),
      ground (arith, decided, audit-db s ctx "member.remove" "user" user none Error w'),
    )

-- Where no statement fails, the actor has the permission and the rank, the organisation and the
-- user that the database reads have rows, and the last owner is not demoted: the role of the user
-- is changed and the operation succeeds, whether the user was a member or not; all other roles are
-- as before.
pub change_member_role-role_of :
    (s : Services) (ctx : Context) (user id role : String) (w : World) (o u : String)
    → w.faults ≡ []
    → w.db.uuid user ≡ some id
    → (s.can (subject_from ctx).0 "update" (target_of "member" user)).allowed ≡ true
    → valid_role role ≡ true
    → role_rank role ≤ role_rank (subject_from ctx).0.role
    → (str_eq role "owner"
        || not (
            leb (owners_of w.db (tenant s ctx).org_id) 1
            && (count_owners user (joined (tenant s ctx).org_id w.db.users w.db.members)).1))
      ≡ true
    → any (λ o. str_eq o.id (tenant s ctx).org_id) w.db.organizations ≡ true
    → any (λ (u : User). str_eq u.id id) w.db.users ≡ true
    → ((change_member_role s ctx user role w).0 ≡ ok tt)
      × (role_of (change_member_role s ctx user role w).1.db.members o u ≡ (
          if str_eq (tenant s ctx).org_id o && str_eq id u
          then some role
          else role_of w.db.members o u))
unfolding change_member_role upsert_member upsert_row guard_role_ceiling authorize actions
change_member_role-role_of s ctx user id role w o u f read allowed v rank guarded org? user? =
    let org = (tenant s ctx).org_id in
    let w' = record w { db = record w.db { members = upserted org id role w.db.members } } in
    let any_user = owners_any_user "" user (joined org w.db.users w.db.members) in
    let decided = guard_decides org user w f in
    (
      ground (
        arith,
        audit-ok s ctx "member.role_change" "user" user (some (("role", text role) ∷ []))
            {E = Error} w',
        decided,
        any_user,
      ),
      ground (
        arith,
        audit-db s ctx "member.role_change" "user" user (some (("role", text role) ∷ [])) Error w',
        decided,
        any_user,
        role_of-upserted org id role w.db.members o u,
      ),
    )
