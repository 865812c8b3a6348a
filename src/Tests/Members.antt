-- ===== src/Tests/Members.antt =====
-- The theorems on members, applied.
use buktio.Base.{◌+◌, ◌≤◌, ◌≡◌, refl, some, arith, str_eq, if◌then◌else◌}
use buktio.Base.Int.{pos, ◌≤ℤ◌}
use buktio.Runtime.World.{World, ok}
use buktio.Runtime.Errors.{actions}
use buktio.Runtime.Facade.{current_user_id, subject_from, tenant}
use buktio.Audit.{
  audit, write_audit, transaction, lock_chain, is_recordable, insert_row, store_hash, set_row_hash,
  last_hash_from, in_chain, audit_canonical, canonical_text,
}
use buktio.Guard.{authorize, forbidden_msg}
use buktio.Validate.{valid_email, email_re, is_address_char, matches}
use buktio.Members.Store.{
  without, joined, list_members, list_invitations, count_members, is_pending, create_invitation,
  upsert_member, upsert_row, upserted, remove_membership,
}
use buktio.Members.{
  invite_member, change_member_role, remove_member, InviteResult, role_rank, valid_role,
  guard_role_ceiling, guard_last_owner, guard_seats, count_owners,
}
use buktio.Members.OwnerCount.{owners_of}
use buktio.Members.Owners.{owners-change_member_role, owners-remove_member}
use buktio.Members.Ceiling.{IsRoleChange, change_member_role-ceiling}
use buktio.Members.Invites.{IsInvited, invite_member-ceiling}
use buktio.Members.Roles.{role_of}
use buktio.Members.Seats.{seats, invite_member-seats}
use buktio.Members.Gaps.{
  change_member_role-role_of, remove_member_fails_open, remove_member_respelled,
}
use buktio.Tests.{services, ctx, world, failing}

-- To unfold this is to unfold the operations on members.
unfoldable member_code : Unit {0}
unfolding is_recordable current_user_id upsert_row invite_member change_member_role remove_member
    guard_role_ceiling role_rank valid_role guard_last_owner guard_seats count_owners joined
    list_members list_invitations count_members is_pending create_invitation upsert_member upserted
    remove_membership authorize forbidden_msg subject_from tenant audit write_audit transaction
    lock_chain insert_row store_hash set_row_hash last_hash_from in_chain audit_canonical
    canonical_text valid_email email_re is_address_char matches actions
member_code = tt

owners-change_member_role_example :
    1 ≤ owners_of (change_member_role services ctx "ann" "viewer" world).1.db "acme"
unfolding member_code
owners-change_member_role_example =
    owners-change_member_role services ctx "ann" "viewer" "acme" world refl ((refl, tt), (tt, tt))
      refl (omega arith)

owners-remove_member_example : 1 ≤ owners_of (remove_member services ctx "ann" world).1.db "acme"
unfolding member_code
owners-remove_member_example =
    owners-remove_member services ctx "ann" "acme" world refl ((refl, tt), (tt, tt)) refl
      (omega arith)

change_member_role-ceiling_example :
    IsRoleChange services ctx "bob" "admin" world.db
      (change_member_role services ctx "bob" "admin" world).1.db
change_member_role-ceiling_example = change_member_role-ceiling services ctx "bob" "admin" world

abbrev invitation : InviteResult
invitation = record {
  id = "new";
  email = "cid@acme.test";
  role = "member";
  expires_at = 604800000000005;
  link = "https://buktio.test/accept-invite?token=token";
}

invite_member-ceiling_example :
    IsInvited services ctx "cid@acme.test" "" world.db
      (invite_member services ctx "cid@acme.test" "" world).1.db
invite_member-ceiling_example = invite_member-ceiling services ctx "cid@acme.test" "" world

invite_member-seats_example :
    let w' = (invite_member services ctx "cid@acme.test" "" world).1 in
    (seats "acme" 5 w'.db ≡ 1 + seats "acme" 5 world.db) × (pos (seats "acme" 5 w'.db) ≤ℤ pos 3)
unfolding member_code
invite_member-seats_example =
    invite_member-seats services ctx "cid@acme.test" "" world invitation refl refl refl

change_member_role-role_of_example :
    ((change_member_role services ctx "bob" "admin" world).0 ≡ ok tt)
    × (role_of (change_member_role services ctx "bob" "admin" world).1.db.members "acme" "bob"
        ≡ some "admin")
unfolding member_code
change_member_role-role_of_example =
    change_member_role-role_of services ctx "bob" "bob" "admin" world "acme" "bob" refl refl refl
      refl (omega arith) refl refl refl

remove_member_fails_open_example :
    ((remove_member services ctx "ann" failing).0 ≡ ok tt)
    × ((remove_member services ctx "ann" failing).1.db.members
        ≡ without "acme" "ann" failing.db.members)
unfolding member_code
remove_member_fails_open_example =
    remove_member_fails_open services ctx "ann" "ann" "connection lost" failing refl refl refl

-- Ids are read whatever their case.
abbrev respelling : World
respelling = record world {
  db = record world.db { uuid = λ id. some (if str_eq id "ANN" then "ann" else id) };
}

remove_member_respelled_example :
    ((remove_member services ctx "ANN" respelling).0 ≡ ok tt)
    × ((remove_member services ctx "ANN" respelling).1.db.members
        ≡ without "acme" "ann" respelling.db.members)
unfolding member_code
remove_member_respelled_example =
    remove_member_respelled services ctx "ANN" "ann" respelling refl refl refl refl
