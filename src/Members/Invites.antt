-- ===== src/Members/Invites.antt =====
-- What an invitation may grant (InviteMember of internal/service/members.go).
use buktio.Base.{
  ℕ, ◌≤◌, ◌≡◌, ◌⊎◌, Bool, inl, inr, refl, ap, String, true, false, not, ◌&&◌, ◌∷◌, arith, str_eq,
  ltb, Bool-cases, if◌then◌else◌,
}
use buktio.Runtime.Rows.{Db, InvitationRow}
use buktio.Runtime.World.{
  World, Call, RepoErr, Result, ok, err, ◌>>=◌, ◌>>◌, pure, raise, put_db, violation, wrapped, draw,
  call_out,
}
use buktio.Runtime.Errors.{mapped, actions}
use buktio.Runtime.Facade.{Services, Context, current_user_id, subject_from, target_of, tenant}
use buktio.Runtime.Holds.{
  IsDb, Holds, Holds-bind, Holds-pure, Holds-raise, Holds-draw, statement_then, unchanged_then,
  keeps_then, holds_rules,
}
use buktio.Audit.Frame.{audit-Holds}
use buktio.Guard.{authorize}
use buktio.Guard.Lookups.{authorize-Holds}
use buktio.Members.Store.{count_members, list_invitations, create_invitation}
use buktio.Validate.{valid_email}
use buktio.Members.Ceiling.{actor_role}
use buktio.Members.{
  guard_seats, new_token, or_internal, valid_role, role_rank, guard_role_ceiling, invite_member,
}

module _ (s : Services) (ctx : Context) where
  -- The role that is granted: "member" where none is asked for.
  abbrev pub granted : String → String
  granted role = if str_eq role "" then "member" else role

  -- As it was, or with one more invitation, for a role that the actor may grant.
  abbrev pub IsInvited : String → String → Db → Db → Type 0
  IsInvited email role db d =
      (d ≡ db)
      ⊎ (i : InvitationRow) × (d ≡ record db { invitations = i ∷ db.invitations })
        × (i.org_id ≡ (tenant s ctx).org_id)
        × (i.email ≡ email)
        × (i.role ≡ granted role)
        × (role_rank i.role ≤ role_rank (actor_role ctx))
        × (valid_role i.role ≡ true)
        × (valid_email i.email ≡ true)
        × ((s.can (subject_from ctx).0 "update" (target_of "member" "")).allowed ≡ true)

  uninvited_db :
      (email role : String) (w : World)
      → ((s.can (subject_from ctx).0 "update" (target_of "member" "")).allowed
          && valid_email email
          && valid_role (granted role)
          && not (ltb (role_rank (actor_role ctx)) (role_rank (granted role))))
        ≡ false
      → (invite_member s ctx email role w).1.db ≡ w.db
  unfolding invite_member guard_role_ceiling authorize actions
  uninvited_db email role w h = ground arith

  seats-Holds : (db : Db) (o : String) → Holds (IsDb db) (guard_seats s o)
  unfolding guard_seats count_members list_invitations
  seats-Holds db o = search holds_rules depth 9

  sent-Holds : {Q : Db → Type 0} {E : Type 0} (c : Call) → Holds (λ t d. Q d) (call_out {E = E} c)
  unfolding call_out
  sent-Holds c = record { at = λ w h. h }

  internal-Holds : {A : Type 0} (db : Db) (r : Result String A) → Holds (IsDb db) (or_internal r)
  internal-Holds db (ok a) = Holds-pure a
  internal-Holds db (err msg) = Holds-raise _

  token-Holds : (db : Db) → Holds (IsDb db) (new_token s)
  token-Holds db = Holds-bind _ _ Holds-draw (λ n. internal-Holds db (s.lib.new_token n))

  module _ (email role : String) (db : Db)
      (rank : role_rank (granted role) ≤ role_rank (actor_role ctx))
      (valid : valid_role (granted role) ≡ true) (address : valid_email email ≡ true)
      (allowed : (s.can (subject_from ctx).0 "update" (target_of "member" "")).allowed ≡ true) where
    abbrev issued : String → ℕ → ℕ → InvitationRow
    issued hash expires n = record {
      id = s.lib.new_uuid n;
      org_id = (tenant s ctx).org_id;
      email = email;
      role = granted role;
      token_hash = hash;
      invited_by = current_user_id ctx;
      expires_at = expires;
      accepted = false;
    }

    added_at :
        (hash : String) (expires : ℕ) (refused : Bool) (w : World)
        → w.db ≡ db
        → let by = current_user_id ctx in
          let p : Result RepoErr String × World =
            (if refused then raise violation else do
              n ← draw
              let id = s.lib.new_uuid n
              put_db (record w.db { invitations = issued hash expires n ∷ w.db.invitations })
              pure id)
              w in
          IsInvited email role db p.1.db
    unfolding actions
    added_at hash expires true w e = inl e
    added_at hash expires false w e = inr (
      issued hash expires w.draws,
      ap (λ (d : Db). record d { invitations = issued hash expires w.draws ∷ d.invitations }) e,
      refl,
      refl,
      refl,
      rank,
      valid,
      address,
      allowed,
    )

    passed_at :
        (w : World) → w.db ≡ db → IsInvited email role db (invite_member s ctx email role w).1.db
    unfolding invite_member create_invitation wrapped mapped guard_role_ceiling
    passed_at w e =
        let Q = IsInvited email role db in
        unchanged_then {Q = Q} db (λ d. inl) _ _ w e (authorize-Holds s ctx _ _)
          (λ _ w e.
            unchanged_then {Q = Q} db (λ d. inl) _ _ w e (search holds_rules)
              (λ _ w e.
                unchanged_then {Q = Q} db (λ d. inl) _ _ w e (search holds_rules)
                  (λ _ w e.
                    unchanged_then {Q = Q} db (λ d. inl) _ _ w e (search holds_rules)
                      (λ _ w e.
                        unchanged_then {Q = Q} db (λ d. inl) _ _ w e (seats-Holds db _)
                          (λ _ w e.
                            unchanged_then {Q = Q} db (λ d. inl) _ _ w e (token-Holds db)
                              (λ token w e.
                                unchanged_then {Q = Q} db (λ d. inl) _ _ w e (search holds_rules)
                                  (λ now w e.
                                    keeps_then {Q = Q} _ _ w
                                      (statement_then {Q = Q} db (λ d. inl) _ w e
                                        (λ v e. added_at _ _ _ v e))
                                      (λ id. Holds-bind _ _ (sent-Holds {Q = Q} _) (λ _.
                                        Holds-bind _ _ (audit-Holds s ctx _ _ _ _ (λ ev t d k. k))
                                          (λ _. Holds-pure _))))))))))

-- Whatever statement fails: inviting leaves the database as it was, or adds one invitation, for the
-- organisation of the tenant, the address and the role that were asked for, "member" where none
-- was; then it is a role of the program, the address is valid, the role ranks no higher than the
-- role of the one who invites, and that one has the permission to update members.
pub invite_member-ceiling :
    (s : Services) (ctx : Context) (email role : String) (w : World)
    → IsInvited s ctx email role w.db (invite_member s ctx email role w).1.db
invite_member-ceiling s ctx email role w =
    let may = (s.can (subject_from ctx).0 "update" (target_of "member" "")).allowed in
    let below = not (ltb (role_rank (actor_role ctx)) (role_rank (granted s ctx role))) in
    elim (Bool-cases (may && valid_email email && valid_role (granted s ctx role) && below)) [
      | inr refused ↦ inl (uninvited_db s ctx email role w refused)
      | inl passed ↦
          passed_at s ctx email role w.db (ground arith) (ground arith) (ground arith)
            (ground arith) w refl
    ]
