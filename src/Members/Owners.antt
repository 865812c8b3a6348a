-- ===== src/Members/Owners.antt =====
-- The last owner of an organisation (guardLastOwner of internal/service/members.go).
use buktio.Base.{
  ◌≤◌, ◌≡◌, ◌⊎◌, inl, inr, String, false, not, ◌&&◌, none, some, [], ◌∷◌, arith, leb, str_eq,
  eq_iff, Bool-cases, select, if◌then◌else◌,
}
use buktio.Runtime.World.{World, ok, err, text}
use buktio.Runtime.Errors.{Error, conflict_err, actions}
use buktio.Runtime.Facade.{Services, Context, tenant}
use buktio.Audit.Frame.{audit-db}
use buktio.Guard.{authorize}
use buktio.Members.Store.{
  is_membership, joined, list_members, upserted, upsert_row, upsert_member, remove_membership,
}
use buktio.Members.{
  count_owners, guard_last_owner, guard_role_ceiling, change_member_role, remove_member,
}
use buktio.Members.OwnerCount.{
  owners, owners_of, IsKeyed, owners_any_user, removed_owners, kept_other, owners-upserted,
  upserted_owner, upserted_other,
}

abbrev last_owner : Error
last_owner = conflict_err "cannot remove or demote the last owner"

-- What the guard decides where the statement does not fail.
pub guard_decides :
    (org user : String) (w : World)
    → w.faults ≡ []
    → let (n, target) = count_owners user (joined org w.db.users w.db.members) in
      guard_last_owner org user w ≡ ((if leb n 1 && target then err last_owner else ok tt), w)
unfolding guard_last_owner list_members actions
guard_decides org user w h = ground arith

module _ (s : Services) (ctx : Context) (user : String) (w : World) (reliable : w.faults ≡ [])
    (keyed : IsKeyed w.db.members) (canonical : w.db.uuid user ≡ some user) where
  abbrev org : String
  org = (tenant s ctx).org_id

  removed_db :
      ((remove_member s ctx user w).1.db ≡ w.db)
      ⊎ ((remove_member s ctx user w).1.db
          ≡ record w.db { members = select (λ m. not (is_membership org user m)) w.db.members })
        × ((2 ≤ owners_of w.db org)
            ⊎ ((count_owners user (joined org w.db.users w.db.members)).1 ≡ false))
  unfolding remove_member remove_membership authorize actions
  removed_db = ground (
    arith,
    guard_decides org user w reliable,
    owners_any_user "" user (joined org w.db.users w.db.members),
    audit-db s ctx "member.remove" "user" user none Error (record w {
      db = record w.db { members = select (λ m. not (is_membership org user m)) w.db.members };
    }),
  )

  changed_db :
      (role : String)
      → ((change_member_role s ctx user role w).1.db ≡ w.db)
        ⊎ ((change_member_role s ctx user role w).1.db
            ≡ record w.db { members = upserted org user role w.db.members })
          × ((role ≡ "owner")
              ⊎ (2 ≤ owners_of w.db org)
              ⊎ ((count_owners user (joined org w.db.users w.db.members)).1 ≡ false))
  unfolding change_member_role upsert_member upsert_row authorize guard_role_ceiling actions
  changed_db role = ground (
    arith,
    guard_decides org user w reliable,
    owners_any_user "" user (joined org w.db.users w.db.members),
    eq_iff role "owner",
    audit-db s ctx "member.role_change" "user" user (some (("role", text role) ∷ [])) Error
        (record w { db = record w.db { members = upserted org user role w.db.members } }),
  )

-- Where the database answers, its memberships are keyed and the user's id is spelled as the database
-- spells it: removing a member never takes the last
-- live owner from an organisation that has one, whatever the operation returns.
pub owners-remove_member :
    (s : Services) (ctx : Context) (user o : String) (w : World)
    → w.faults ≡ []
    → IsKeyed w.db.members
    → w.db.uuid user ≡ some user
    → 1 ≤ owners_of w.db o
    → 1 ≤ owners_of (remove_member s ctx user w).1.db o
owners-remove_member s ctx user o w reliable keyed canonical h =
    let org = (tenant s ctx).org_id in
    elim (removed_db s ctx user w reliable keyed canonical) [
      | inl same ↦ rw same h
      | inr (removed, guarded) ↦ rw removed (elim (Bool-cases (str_eq o org)) [
        | inl here ↦ rw ((eq_iff o org).0 here) (
            ground
              (arith, removed_owners org user w.db.users w.db.members keyed, (eq_iff o org).0 here))
        | inr other ↦
            rw
              (
                owners,
                kept_other org user w.db.users o w.db.members (λ e. cc (other, (eq_iff o org).1 e)),
              )
              h
      ])
    ]

-- Where the database answers, its memberships are keyed and the user's id is spelled as the database
-- spells it: changing a role never takes the last
-- live owner from an organisation that has one, whatever the operation returns.
pub owners-change_member_role :
    (s : Services) (ctx : Context) (user role o : String) (w : World)
    → w.faults ≡ []
    → IsKeyed w.db.members
    → w.db.uuid user ≡ some user
    → 1 ≤ owners_of w.db o
    → 1 ≤ owners_of (change_member_role s ctx user role w).1.db o
owners-change_member_role s ctx user role o w reliable keyed canonical h =
    let org = (tenant s ctx).org_id in
    elim (changed_db s ctx user w reliable keyed canonical role) [
      | inl same ↦ rw same h
      | inr (changed, guarded) ↦ rw changed (elim (Bool-cases (str_eq o org)) [
        | inl here ↦ rw ((eq_iff o org).0 here) (elim (Bool-cases (str_eq role "owner")) [
          | inl to_owner ↦ ground (
            arith,
            upserted_owner org user w.db.users w.db.members,
            (eq_iff o org).0 here,
            (eq_iff role "owner").0 to_owner,
          )
          | inr demotion ↦ ground (
            arith,
            owners-upserted org user w.db.users role w.db.members
                (λ e. cc (demotion, (eq_iff role "owner").1 e)) keyed,
            (eq_iff o org).0 here,
            (eq_iff role "owner"),
          )
        ])
        | inr other ↦
            rw
              (
                owners,
                upserted_other org user w.db.users o role w.db.members
                    (λ e. cc (other, (eq_iff o org).1 e)),
              )
              h
      ])
    ]
