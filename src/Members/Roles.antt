-- ===== src/Members/Roles.antt =====
-- The roles in the table of memberships (UpsertMember of internal/repository/members.go).
use buktio.Base.{
  ◌≡◌, refl, inl, inr, String, false, ◌&&◌, Option, none, some, List, [], ◌∷◌, ◌++◌, arith, str_eq,
  eq_iff, any, update_where, Bool-cases, if◌then◌else◌,
}
use buktio.Runtime.Rows.{Membership}
use buktio.Members.Store.{is_membership, upserted}

-- The role of a user in an organisation (Store.GetMembershipRole).
abbrev pub role_of : List Membership → String → String → Option String
role_of [] org user = none
role_of (m ∷ ms) org user = if is_membership org user m then some m.role else role_of ms org user

module _ (org user role : String) where
  role_of-update :
      (ms : List Membership) (o u : String)
      → role_of (update_where (is_membership org user) (λ m. record m { role = role }) ms) o u ≡ (
          if str_eq org o && str_eq user u && any (is_membership org user) ms
          then some role
          else role_of ms o u)
  role_of-update [] o u = ground arith
  role_of-update (m ∷ ms) o u = ground (
    arith,
    role_of-update ms o u,
    eq_iff m.org_id org,
    eq_iff m.user_id user,
    eq_iff m.org_id o,
    eq_iff m.user_id u,
    eq_iff org o,
    eq_iff user u,
  )

  role_of-append :
      (ms : List Membership) (o u : String)
      → any (is_membership org user) ms ≡ false
      → role_of (ms ++ record { org_id = org; user_id = user; role = role } ∷ []) o u
        ≡ (if str_eq org o && str_eq user u then some role else role_of ms o u)
  role_of-append [] o u h = refl
  role_of-append (m ∷ ms) o u h = ground (
    arith,
    role_of-append ms o u,
    eq_iff m.org_id o,
    eq_iff m.user_id u,
    eq_iff org o,
    eq_iff user u,
    eq_iff m.org_id org,
    eq_iff m.user_id user,
  )

  -- An upsert sets one role and leaves the others.
  pub role_of-upserted :
      (ms : List Membership) (o u : String)
      → role_of (upserted org user role ms) o u
        ≡ (if str_eq org o && str_eq user u then some role else role_of ms o u)
  unfolding upserted
  role_of-upserted ms o u = elim (Bool-cases (any (is_membership org user) ms)) [
    | inl there ↦ rw there (rw role_of-update (rw there (ground arith)))
    | inr new ↦ rw new (role_of-append ms o u new)
  ]
