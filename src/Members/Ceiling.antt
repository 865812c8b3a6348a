-- ===== src/Members/Ceiling.antt =====
-- The ceiling on the roles that a member may grant (guardRoleCeiling of
-- internal/service/members.go).
use buktio.Base.{
  ◌≤◌, ◌≡◌, ◌⊎◌, Bool, inl, inr, refl, ap, sym, String, true, false, not, ◌&&◌, none, some, arith,
  ltb, Bool-cases, Option, if◌then◌else◌,
}
use buktio.Runtime.Rows.{Db}
use buktio.Runtime.World.{World, RepoErr, Result, raise, put_db, violation, no_uuid, wrapped}
use buktio.Runtime.Errors.{mapped, actions}
use buktio.Runtime.Facade.{Services, Context, subject_from, target_of, tenant}
use buktio.Runtime.Holds.{
  IsDb, Holds, Holds-bind, statement_then, unchanged_then, keeps_then, holds_rules,
}
use buktio.Audit.Frame.{audit-Holds}
use buktio.Guard.{authorize}
use buktio.Guard.Lookups.{authorize-Holds}
use buktio.Members.Store.{list_members, upserted, upsert_row, upsert_member}
use buktio.Members.{valid_role, role_rank, guard_role_ceiling, guard_last_owner, change_member_role}

-- The role of the acting subject.
abbrev pub actor_role : Context → String
actor_role ctx = (subject_from ctx).0.role

module _ (s : Services) (ctx : Context) where
  abbrev org : String
  org = (tenant s ctx).org_id

  refused_db :
      (user role : String) (w : World)
      → ((s.can (subject_from ctx).0 "update" (target_of "member" user)).allowed
          && valid_role role
          && not (ltb (role_rank (actor_role ctx)) (role_rank role)))
        ≡ false
      → (change_member_role s ctx user role w).1.db ≡ w.db
  unfolding change_member_role guard_role_ceiling authorize actions
  refused_db user role w h = ground arith

  guard-Holds : (db : Db) (user : String) → Holds (IsDb db) (guard_last_owner org user)
  unfolding guard_last_owner list_members
  guard-Holds db user = Holds-bind _ _ (search holds_rules) (λ members. search holds_rules)

  -- As it was, or with one role that the actor may grant.
  abbrev pub IsRoleChange : String → String → Db → Db → Type 0
  IsRoleChange user role db d =
      (d ≡ db)
      ⊎ (id : String) × (db.uuid user ≡ some id)
        × (d ≡ record db { members = upserted org id role db.members })
        × (role_rank role ≤ role_rank (actor_role ctx))
        × (valid_role role ≡ true)
        × ((s.can (subject_from ctx).0 "update" (target_of "member" user)).allowed ≡ true)

  module _ (user role : String) (db : Db) (rank : role_rank role ≤ role_rank (actor_role ctx))
      (valid : valid_role role ≡ true)
      (allowed : (s.can (subject_from ctx).0 "update" (target_of "member" user)).allowed
        ≡ true) where
    row_at :
        (id : String) (present : Bool) (w : World)
        → w.db ≡ db
        → db.uuid user ≡ some id
        → IsRoleChange user role db
            ((if present
                then put_db (record w.db { members = upserted org id role w.db.members })
                else raise violation)
              w).1.db
    unfolding actions
    row_at id true w e read = inr (
      id,
      read,
      ap (λ (d : Db). record d { members = upserted org id role d.members }) e,
      rank,
      valid,
      allowed,
    )
    row_at id false w e read = inl e

    cast_at :
        (id : Option String) (w : World)
        → w.db ≡ db
        → db.uuid user ≡ id
        → let p : Result RepoErr (Unit {0}) × World = elim id [
          | none ↦ raise no_uuid w
          | some i ↦ upsert_row org i role w
        ] in
          IsRoleChange user role db p.1.db
    unfolding upsert_row actions
    cast_at none w e read = inl e
    cast_at (some id) w e read = unfold row_at in row_at id _ w e read

    member_at :
        (w : World)
        → w.db ≡ db
        → IsRoleChange user role db (mapped (upsert_member org user role) w).1.db
    unfolding upsert_member wrapped mapped
    member_at w e =
        statement_then {Q = IsRoleChange user role db} db (λ d. inl) _ w e
          (λ v e. cast_at (v.db.uuid user) v e (ap (λ (d : Db). d.uuid user) (sym e)))

    changed_at :
        (w : World)
        → w.db ≡ db
        → IsRoleChange user role db (change_member_role s ctx user role w).1.db
    unfolding change_member_role guard_role_ceiling
    changed_at w e =
        let Q = IsRoleChange user role db in
        unchanged_then {Q = Q} db (λ d. inl) _ _ w e (authorize-Holds s ctx _ _)
          (λ _ w e.
            unchanged_then {Q = Q} db (λ d. inl) _ _ w e (search holds_rules)
              (λ _ w e.
                unchanged_then {Q = Q} db (λ d. inl) _ _ w e (search holds_rules)
                  (λ _ w e.
                    unchanged_then {Q = Q} db (λ d. inl) _ _ w e (search (holds_rules, guard-Holds))
                      (λ _ w e.
                        keeps_then {Q = Q} _ _ w (member_at w e)
                          (λ _. audit-Holds s ctx _ _ _ _ (λ ev t d k. k))))))

-- Whatever statement fails: changing a role leaves the database as it was, or sets in it the one
-- role that was asked for, of the user whose id the database reads, in the organisation of the
-- tenant; then it is a role of the program, it ranks no higher than the role of the one who changes
-- it, and that one has the permission to update the member.
pub change_member_role-ceiling :
    (s : Services) (ctx : Context) (user role : String) (w : World)
    → IsRoleChange s ctx user role w.db (change_member_role s ctx user role w).1.db
change_member_role-ceiling s ctx user role w =
    let may = (s.can (subject_from ctx).0 "update" (target_of "member" user)).allowed in
    let below = not (ltb (role_rank (actor_role ctx)) (role_rank role)) in
    elim (Bool-cases (may && valid_role role && below)) [
      | inr refused ↦ inl (refused_db s ctx user role w refused)
      | inl passed ↦
          changed_at s ctx user role w.db (ground arith) (ground arith) (ground arith) w refl
    ]
