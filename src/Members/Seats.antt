-- ===== src/Members/Seats.antt =====
-- The seats of a plan (guardSeats of internal/service/members.go).
use buktio.Base.{
  ℕ, ◌+◌, ◌≡◌, ◌≢◌, refl, String, ◌<>◌, false, not, ◌&&◌, some, List, [], ◌∷◌, arith, inl, inr, ◌⊎◌,
  str_eq, eq_refl, length, select, if◌then◌else◌,
}
use buktio.Base.Int.{pos, ltb_ℤ, ◌≤ℤ◌}
use buktio.Runtime.Rows.{Db, Membership, InvitationRow}
use buktio.Runtime.World.{World, send_invite, Result, ok, err, text}
use buktio.Runtime.Errors.{Error, actions}
use buktio.Runtime.Facade.{current_user_id, Services, Context, tenant, hash_token}
use buktio.Audit.Frame.{audit-db}
use buktio.Guard.{authorize}
use buktio.Members.Store.{
  count_members, list_invitations, is_pending, to_invitations, create_invitation,
}
use buktio.Members.{
  guard_role_ceiling, guard_seats, seat_limit_reached, InviteResult, invite_member, invite_ttl,
}

-- The members of an organisation with its pending invitations.
abbrev pub seats : String → ℕ → Db → ℕ
seats org now db =
    length (select (λ (m : Membership). str_eq m.org_id org) db.members)
    + length
        (select (λ (i : InvitationRow). str_eq i.org_id org && is_pending now i) db.invitations)

length-to_invitations : (is : List InvitationRow) → length (to_invitations is) ≡ length is
length-to_invitations [] = refl
length-to_invitations (i ∷ is) = omega (arith, length-to_invitations is)

Result-cases : {A E : Type 0} (r : Result E A) → ((a : A) × (r ≡ ok a)) ⊎ ((e : E) × (r ≡ err e))
Result-cases (ok a) = inl (a, refl)
Result-cases (err e) = inr (e, refl)

module _ (s : Services) (ctx : Context) where
  abbrev org : String
  org = (tenant s ctx).org_id

  -- What the guard decides where no statement fails.
  pub guard_seats_lem :
      (w : World)
      → w.faults ≡ []
      → let lim = s.limit "seats" org in
        guard_seats s org w ≡ (
          (if not lim.unlimited && not (ltb_ℤ (pos (seats org w.now w.db)) lim.max)
              then err seat_limit_reached
              else ok tt),
          w,
        )
  unfolding guard_seats count_members list_invitations actions
  guard_seats_lem w h = ground (
    arith,
    length-to_invitations
        (select (λ i. str_eq i.org_id org && is_pending w.now i) w.db.invitations),
  )

  -- The database once an invitation is stored, and the world in which it is audited.
  abbrev with_invitation : String → String → String → World → Db
  with_invitation email role token w = record w.db {
    invitations =
        record {
          id = s.lib.new_uuid (w.draws + 1);
          org_id = org;
          email = email;
          role = role;
          token_hash = hash_token s token;
          invited_by = current_user_id ctx;
          expires_at = w.now + invite_ttl;
          accepted = false;
        }
        ∷ w.db.invitations;
  }

  abbrev invited_world : String → String → String → World → World
  invited_world email role token w = record w {
    db = with_invitation email role token w;
    draws = w.draws + 1 + 1;
    trail = send_invite email (s.public_base_url <> "/accept-invite?token=" <> token) ∷ w.trail;
  }

  invited_db :
      (email role token : String) (w : World) (r : InviteResult)
      → w.faults ≡ []
      → s.lib.new_token w.draws ≡ ok token
      → (invite_member s ctx email role w).0 ≡ ok r
      → ((guard_seats s org w).0 ≡ ok tt)
        × ((invite_member s ctx email role w).1.db ≡ with_invitation email r.role token w)
  unfolding invite_member create_invitation authorize guard_role_ceiling actions
  invited_db email role token w r f t h = ground (
    arith,
    guard_seats_lem w f,
    audit-db s ctx "member.invite" "invitation" (s.lib.new_uuid (w.draws + 1))
        (some (("email", text email) ∷ ("role", text r.role) ∷ [])) Error
        (invited_world email r.role token w),
  )

  undrawn :
      (email role msg : String) (w : World) (r : InviteResult)
      → s.lib.new_token w.draws ≡ err msg
      → w.faults ≡ []
      → (invite_member s ctx email role w).0 ≢ ok r
  unfolding invite_member authorize guard_role_ceiling actions
  undrawn email role msg w r e f h = ground (arith, guard_seats_lem w f)

  drawn :
      (email role : String) (w : World) (r : InviteResult)
      → (invite_member s ctx email role w).0 ≡ ok r
      → w.faults ≡ []
      → (token : String) × (s.lib.new_token w.draws ≡ ok token)
  drawn email role w r h f = elim (Result-cases (s.lib.new_token w.draws)) [
    | inl e ↦ e
    | inr (msg, e) ↦ absurd (undrawn email role msg w r e f h)
  ]

-- Where no statement fails and the seats of the plan are limited: an invitation that was made found
-- a free seat, so that afterwards the members and the pending invitations together are within the
-- seats of the plan.
pub invite_member-seats :
    (s : Services) (ctx : Context) (email role : String) (w : World) (r : InviteResult)
    → w.faults ≡ []
    → (invite_member s ctx email role w).0 ≡ ok r
    → (s.limit "seats" (tenant s ctx).org_id).unlimited ≡ false
    → let org = (tenant s ctx).org_id in
      let w' = (invite_member s ctx email role w).1 in
      (seats org w.now w'.db ≡ 1 + seats org w.now w.db)
      × (pos (seats org w.now w'.db) ≤ℤ (s.limit "seats" org).max)
unfolding is_pending
invite_member-seats s ctx email role w r f h lim =
    let org = (tenant s ctx).org_id in
    let (token, t) = drawn s ctx email role w r h f in
    let (guarded, e) = invited_db s ctx email role token w r f t h in
    (
      rw e (ground (arith, eq_refl org)),
      rw e (ground (arith, eq_refl org, guard_seats_lem s ctx w f)),
    )
