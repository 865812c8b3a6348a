-- ===== src/Members/OwnerCount.antt =====
-- Counting the live owners of an organisation across the statements that change memberships.
use buktio.Base.{
  ℕ, ◌+◌, ◌≤◌, ◌≡◌, ◌≢◌, refl, inl, inr, String, Bool, true, false, not, some, List, [], ◌∷◌, ◌++◌,
  arith, eq_iff, All, Bool-cases, Option-cases, select, find, find-holds, update_where,
  if◌then◌else◌,
}
use buktio.Runtime.Rows.{Db, User, Membership}
use buktio.Members.Store.{Member, is_membership, live_user, joined, upserted}
use buktio.Members.{count_owners}

-- The live owners of an organisation.
abbrev pub owners : String → List User → List Membership → ℕ
owners org users ms = (count_owners "" (joined org users ms)).0

abbrev pub owners_of : Db → String → ℕ
owners_of db org = owners org db.users db.members

-- No two rows have the same organisation and user (the primary key of organization_members).
abbrev pub IsKeyed : List Membership → Type 0
IsKeyed [] = Unit
IsKeyed (m ∷ ms) = All (λ n. is_membership m.org_id m.user_id n ≡ false) ms × IsKeyed ms

-- The number does not depend on the user that is looked for.
pub owners_any_user :
    (a b : String) (ms : List Member) → (count_owners a ms).0 ≡ (count_owners b ms).0
unfolding count_owners
owners_any_user a b [] = refl
owners_any_user a b (m ∷ ms) = ground (arith, owners_any_user a b ms)

pub found_id :
    (id : String) (users : List User) (u : User) → find (live_user id) users ≡ some u → u.id ≡ id
found_id id users u h = ground (arith, find-holds (live_user id) users u h, eq_iff u.id id)

pub keyed_at :
    (m : Membership) (org user : String) (ms : List Membership)
    → m.org_id ≡ org
    → m.user_id ≡ user
    → All (λ n. is_membership m.org_id m.user_id n ≡ false) ms
    → All (λ n. is_membership org user n ≡ false) ms
keyed_at m org user [] e f a = tt
keyed_at m org user (n ∷ ms) e f a = (rw (← e, ← f) a.0, keyed_at m org user ms e f a.1)

module _ (org user : String) (users : List User) where
  pub keys :
      (m : Membership) → is_membership org user m ≡ true → (m.org_id ≡ org) × (m.user_id ≡ user)
  keys m h = (ground (arith, eq_iff m.org_id org), ground (arith, eq_iff m.user_id user))

  -- Whether the user is a live owner.
  abbrev pub is_target : List Membership → Bool
  is_target ms = (count_owners user (joined org users ms)).1

  abbrev pub kept : List Membership → List Membership
  kept ms = select (λ m. not (is_membership org user m)) ms

  -- Without a row of the user nothing is removed, and the user is no owner.
  pub absent :
      (ms : List Membership)
      → All (λ m. is_membership org user m ≡ false) ms
      → (is_target ms ≡ false) × (kept ms ≡ ms)
  unfolding joined count_owners
  absent [] a = (refl, refl)
  absent (m ∷ ms) a = elim (Option-cases (find (live_user m.user_id) users)) [
    | inl none_found ↦ ground (arith, absent ms a.1)
    | inr (u, found) ↦ ground (
      arith,
      absent ms a.1,
      found_id m.user_id users u found,
      eq_iff u.id user,
      eq_iff m.user_id user,
    )
  ]

  pub removed_owners :
      (ms : List Membership)
      → IsKeyed ms
      → owners org users ms ≡ owners org users (kept ms) + (if is_target ms then 1 else 0)
  unfolding joined count_owners
  removed_owners [] k = omega arith
  removed_owners (m ∷ ms) k = elim (Bool-cases (is_membership org user m)) [
    | inl gone ↦
        let (org_eq, user_eq) = keys m gone in
        let (no_target, all_kept) = absent ms (keyed_at m org user ms org_eq user_eq k.0) in
        let removed : kept (m ∷ ms) ≡ ms = rw gone all_kept in
        elim (Option-cases (find (live_user m.user_id) users)) [
          | inl none_found ↦
              rw removed (ground (arith, no_target, owners_any_user "" user (joined org users ms)))
          | inr (u, found) ↦ rw removed (
              ground (
                arith,
                no_target,
                owners_any_user "" user (joined org users ms),
                found_id m.user_id users u found,
                eq_iff u.id user,
              ))
        ]
    | inr stays ↦ elim (Option-cases (find (live_user m.user_id) users)) [
      | inl none_found ↦ ground (arith, removed_owners ms k.1)
      | inr (u, found) ↦ ground (
        arith,
        removed_owners ms k.1,
        owners_any_user "" user (joined org users ms),
        found_id m.user_id users u found,
        eq_iff u.id user,
        eq_iff m.user_id user,
      )
    ]
  ]

  abbrev pub demoted : String → List Membership → List Membership
  demoted role ms = update_where (is_membership org user) (λ m. record m { role = role }) ms

  -- Changing a role leaves the rows of the others as they are.
  pub undemoted :
      (role : String) (ms : List Membership)
      → All (λ m. is_membership org user m ≡ false) ms
      → demoted role ms ≡ ms
  undemoted role [] a = refl
  undemoted role (m ∷ ms) a = ground (arith, undemoted role ms a.1)

  pub owners-demoted :
      (role : String) (ms : List Membership)
      → role ≢ "owner"
      → IsKeyed ms
      → owners org users ms ≡ owners org users (demoted role ms) + (if is_target ms then 1 else 0)
  unfolding joined count_owners
  owners-demoted role [] d k = omega arith
  owners-demoted role (m ∷ ms) d k = elim (Bool-cases (is_membership org user m)) [
    | inl changed ↦
        let (org_eq, user_eq) = keys m changed in
        let others = keyed_at m org user ms org_eq user_eq k.0 in
        let same = undemoted role ms others in
        let no_target = (absent ms others).0 in
        let row : demoted role (m ∷ ms) ≡ record m { role = role } ∷ ms = rw (changed, same) in
        elim (Option-cases (find (live_user m.user_id) users)) [
          | inl none_found ↦
              rw row (ground (arith, no_target, owners_any_user "" user (joined org users ms)))
          | inr (u, found) ↦ rw row (
              ground (
                arith,
                no_target,
                owners_any_user "" user (joined org users ms),
                found_id m.user_id users u found,
                eq_iff u.id user,
                eq_iff role "owner",
              ))
        ]
    | inr stays ↦ elim (Option-cases (find (live_user m.user_id) users)) [
      | inl none_found ↦ ground (arith, owners-demoted role ms d k.1)
      | inr (u, found) ↦ ground (
        arith,
        owners-demoted role ms d k.1,
        owners_any_user "" user (joined org users ms),
        found_id m.user_id users u found,
        eq_iff u.id user,
        eq_iff m.user_id user,
      )
    ]
  ]

  pub promoted_owners :
      (ms : List Membership) → owners org users ms ≤ owners org users (demoted "owner" ms)
  unfolding joined count_owners
  promoted_owners [] = omega arith
  promoted_owners (m ∷ ms) = elim (Bool-cases (is_membership org user m)) [
    | inl changed ↦
        let row : demoted "owner" (m ∷ ms) ≡ record m { role = "owner" } ∷ demoted "owner" ms =
          rw changed in
        rw row (ground (arith, promoted_owners ms))
    | inr stays ↦ ground (arith, promoted_owners ms)
  ]

  pub appended_owners :
      (ms : List Membership) (m : Membership)
      → owners org users ms ≤ owners org users (ms ++ m ∷ [])
  unfolding joined count_owners
  appended_owners [] m = omega arith
  appended_owners (n ∷ ms) m = ground (arith, appended_owners ms m)

  pub owners-upserted :
      (role : String) (ms : List Membership)
      → role ≢ "owner"
      → IsKeyed ms
      → owners org users ms
        ≤ owners org users (upserted org user role ms) + (if is_target ms then 1 else 0)
  unfolding upserted
  owners-upserted role ms d k = ground (
    arith,
    owners-demoted role ms d k,
    appended_owners ms (record { org_id = org; user_id = user; role = role }),
  )

  pub upserted_owner :
      (ms : List Membership) → owners org users ms ≤ owners org users (upserted org user "owner" ms)
  unfolding upserted
  upserted_owner ms = ground (
    arith,
    promoted_owners ms,
    appended_owners ms (record { org_id = org; user_id = user; role = "owner" }),
  )

  -- The other organisations.
  pub kept_other :
      (o : String) (ms : List Membership) → o ≢ org → joined o users (kept ms) ≡ joined o users ms
  unfolding joined
  kept_other o [] h = refl
  kept_other o (m ∷ ms) h =
      ground (arith, kept_other o ms h, eq_iff m.org_id org, eq_iff m.org_id o)

  pub demoted_other :
      (o role : String) (ms : List Membership)
      → o ≢ org
      → joined o users (demoted role ms) ≡ joined o users ms
  unfolding joined
  demoted_other o role [] h = refl
  demoted_other o role (m ∷ ms) h =
      ground (arith, demoted_other o role ms h, eq_iff m.org_id org, eq_iff m.org_id o)

  pub appended_other :
      (o role : String) (ms : List Membership)
      → o ≢ org
      → joined o users (ms ++ record { org_id = org; user_id = user; role = role } ∷ [])
        ≡ joined o users ms
  unfolding joined
  appended_other o role [] h = ground (arith, eq_iff org o)
  appended_other o role (m ∷ ms) h = ground (arith, appended_other o role ms h)

  pub upserted_other :
      (o role : String) (ms : List Membership)
      → o ≢ org
      → joined o users (upserted org user role ms) ≡ joined o users ms
  unfolding upserted
  upserted_other o role ms h = ground (arith, demoted_other o role ms h, appended_other o role ms h)
