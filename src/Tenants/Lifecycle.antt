-- ===== src/Tenants/Lifecycle.antt =====
-- Suspension and resumption of an organisation (internal/service/tenants.go).
use buktio.Base.{
  ℕ, ◌≡◌, ◌≢◌, refl, ap, ◌∙◌, inl, inr, String, Bool, true, false, not, ◌&&◌, Option, none, some,
  List, [], ◌∷◌, arith, str_eq, eq_iff, eq_refl, find, any, update_where, Bool-cases, if◌then◌else◌,
}
use buktio.Base.Int.{ℤ}
use buktio.Runtime.Rows.{Db, Organization}
use buktio.Runtime.World.{World, Metadata, ok, err, text}
use buktio.Runtime.Errors.{Error, forbidden_err, actions}
use buktio.Runtime.Facade.{Services, Context, subject_from}
use buktio.Audit.Frame.{audit-db, audit-ok}
use buktio.Guard.{require_platform_admin}
use buktio.Tenants.Store.{
  live_org, get_org_status, suspended_row, resumed_row, suspend_row, resume_row,
}
use buktio.Tenants.{org_status, suspend_org, resume_org, set_org_quota, org_is_suspended}

abbrev pub suspended_in : String → List Organization → Bool
suspended_in org [] = false
suspended_in org (o ∷ os) =
    let rest = suspended_in org os in if live_org org o then str_eq o.status "suspended" else rest

-- Whether a live organisation is suspended.
abbrev pub suspended : Db → String → Bool
suspended db org = not (str_eq org "") && suspended_in org db.organizations

suspended_in_lem :
    (org : String) (os : List Organization)
    → suspended_in org os ≡ (elim (find (live_org org) os) as (λ _. Bool) [
      | none ↦ false
      | some o ↦ str_eq o.status "suspended"
    ])
suspended_in_lem org [] = refl
suspended_in_lem org (o ∷ os) = ground (arith, suspended_in_lem org os)

module _ (org : String) where
  pub suspended_in-suspended :
      (reason : String) (now : ℕ) (o : String) (os : List Organization)
      → suspended_in o (update_where (live_org org) (suspended_row reason now) os)
        ≡ (if str_eq o org then any (live_org org) os else suspended_in o os)
  suspended_in-suspended reason now o [] = ground arith
  suspended_in-suspended reason now o (x ∷ os) = elim (Bool-cases (live_org org x)) [
    | inl b ↦ rw b (
        ground (
          arith,
          suspended_in-suspended reason now o os,
          b,
          eq_iff x.id o,
          eq_iff x.id org,
          eq_iff o org,
          eq_refl "suspended",
        ))
    | inr b ↦ rw b (
        ground (
          arith,
          suspended_in-suspended reason now o os,
          b,
          eq_iff x.id o,
          eq_iff x.id org,
          eq_iff o org,
        ))
  ]

  pub suspended_in-resumed :
      (now : ℕ) (o : String) (os : List Organization)
      → suspended_in o (update_where (live_org org) (resumed_row now) os)
        ≡ (if str_eq o org then false else suspended_in o os)
  suspended_in-resumed now o [] = ground arith
  suspended_in-resumed now o (x ∷ os) = elim (Bool-cases (live_org org x)) [
    | inl b ↦ rw b (
        ground
          (arith, suspended_in-resumed now o os, b, eq_iff x.id o, eq_iff x.id org, eq_iff o org))
    | inr b ↦ rw b (
        ground
          (arith, suspended_in-resumed now o os, b, eq_iff x.id o, eq_iff x.id org, eq_iff o org))
  ]

-- What the authentication reads where the statement does not fail.
pub org_is_suspended_lem :
    (o : String) (v : World)
    → v.faults ≡ []
    → (org_is_suspended {E = Error} o v).0 ≡ ok (suspended v.db o)
unfolding org_is_suspended get_org_status actions
org_is_suspended_lem o v f = ground (arith, suspended_in_lem o v.db.organizations)

-- The same in a world with these organisations.
pub authenticated :
    (o : String) (os : List Organization) (v : World)
    → v.db.organizations ≡ os
    → v.faults ≡ []
    → (org_is_suspended {E = Error} o v).0 ≡ ok (not (str_eq o "") && suspended_in o os)
authenticated o os v e f =
    org_is_suspended_lem o v f ∙ ap (λ os. ok (not (str_eq o "") && suspended_in o os)) e

module _ (s : Services) (ctx : Context) (org : String) (w : World) (reliable : w.faults ≡ [])
    (admin : (subject_from ctx).0.platform_admin ≡ true)
    (live : any (live_org org) w.db.organizations ≡ true) where
  suspended_table :
      (reason : String)
      → ((suspend_org s ctx org reason w).0 ≡ ok tt)
        × ((suspend_org s ctx org reason w).1.db.organizations
            ≡ update_where (live_org org) (suspended_row reason w.now) w.db.organizations)
  unfolding suspend_org suspend_row require_platform_admin actions
  suspended_table reason =
      let w' = record w {
        db = record w.db {
          organizations =
              update_where (live_org org) (suspended_row reason w.now) w.db.organizations;
        };
      } in
      let why : Option Metadata = some (("reason", text reason) ∷ []) in
      (
        ground (arith, audit-ok s ctx "org.suspend" "organization" org why {E = Error} w'),
        ground (arith, audit-db s ctx "org.suspend" "organization" org why Error w'),
      )

  suspended_flag :
      (reason o : String)
      → org ≢ ""
      → (not (str_eq o "")
          && suspended_in o
              (update_where (live_org org) (suspended_row reason w.now) w.db.organizations))
        ≡ (if str_eq o org then true else suspended w.db o)
  suspended_flag reason o named = ground (
    arith,
    suspended_in-suspended org reason w.now o w.db.organizations,
    eq_iff o org,
    eq_iff o "",
  )

  resumed_table :
      ((resume_org s ctx org w).0 ≡ ok tt)
      × ((resume_org s ctx org w).1.db.organizations
          ≡ update_where (live_org org) (resumed_row w.now) w.db.organizations)
  unfolding resume_org resume_row require_platform_admin actions
  resumed_table =
      let w' = record w {
        db = record w.db {
          organizations = update_where (live_org org) (resumed_row w.now) w.db.organizations;
        };
      } in
      (
        ground (arith, audit-ok s ctx "org.resume" "organization" org none {E = Error} w'),
        ground (arith, audit-db s ctx "org.resume" "organization" org none Error w'),
      )

  resumed_flag :
      (o : String)
      → (not (str_eq o "")
          && suspended_in o (update_where (live_org org) (resumed_row w.now) w.db.organizations))
        ≡ (if str_eq o org then false else suspended w.db o)
  resumed_flag o = ground (arith, suspended_in-resumed org w.now o w.db.organizations, eq_iff o org)

  -- Where no statement fails: a platform administrator suspends a live organisation; its row has
  -- the reason and the time, and the rows of the other organisations are as before. In a later world
  -- with these organisations the authentication finds it suspended, and any other one as before.
  pub suspend_org-suspended :
      (reason o : String) (v : World)
      → org ≢ ""
      → v.db.organizations ≡ (suspend_org s ctx org reason w).1.db.organizations
      → v.faults ≡ []
      → ((suspend_org s ctx org reason w).0 ≡ ok tt)
        × ((suspend_org s ctx org reason w).1.db.organizations
            ≡ update_where (live_org org) (suspended_row reason w.now) w.db.organizations)
        × (suspended (suspend_org s ctx org reason w).1.db o
            ≡ (if str_eq o org then true else suspended w.db o))
        × ((org_is_suspended {E = Error} o v).0
            ≡ ok (if str_eq o org then true else suspended w.db o))
  suspend_org-suspended reason o v named same f =
      let (done, table) = suspended_table reason in
      let flag = suspended_flag reason o named in
      let now_is : suspended (suspend_org s ctx org reason w).1.db o
          ≡ (if str_eq o org then true else suspended w.db o) =
        ap (λ os. not (str_eq o "") && suspended_in o os) table ∙ flag in
      (done, table, now_is, authenticated o _ v same f ∙ ap ok now_is)

  -- Where no statement fails: a platform administrator resumes a live organisation, whatever
  -- suspended it; the rows of the other organisations are as before. In a later world with these
  -- organisations the authentication does not find it suspended, and any other one as before.
  pub resume_org-suspended :
      (o : String) (v : World)
      → v.db.organizations ≡ (resume_org s ctx org w).1.db.organizations
      → v.faults ≡ []
      → ((resume_org s ctx org w).0 ≡ ok tt)
        × ((resume_org s ctx org w).1.db.organizations
            ≡ update_where (live_org org) (resumed_row w.now) w.db.organizations)
        × (suspended (resume_org s ctx org w).1.db o
            ≡ (if str_eq o org then false else suspended w.db o))
        × ((org_is_suspended {E = Error} o v).0
            ≡ ok (if str_eq o org then false else suspended w.db o))
  resume_org-suspended o v same f =
      let (done, table) = resumed_table in
      let now_is : suspended (resume_org s ctx org w).1.db o
          ≡ (if str_eq o org then false else suspended w.db o) =
        ap (λ os. not (str_eq o "") && suspended_in o os) table ∙ resumed_flag o in
      (done, table, now_is, authenticated o _ v same f ∙ ap ok now_is)

-- Who is not a platform administrator is refused each operation on the lifecycle of an
-- organisation, before any statement: the world is as it was.
lifecycle_gate :
    (s : Services) (ctx : Context) (org reason : String) (max : Option ℤ) (w : World)
    → (subject_from ctx).0.platform_admin ≡ false
    → let refused : Error = forbidden_err "platform administrator privilege required" in
      (org_status s ctx org w ≡ (err refused, w))
      × (suspend_org s ctx org reason w ≡ (err refused, w))
      × (resume_org s ctx org w ≡ (err refused, w))
      × (set_org_quota s ctx org max w ≡ (err refused, w))
unfolding org_status suspend_org resume_org set_org_quota require_platform_admin actions
lifecycle_gate s ctx org reason max w h = (ground arith, ground arith, ground arith, ground arith)

-- The authentication reads the suspension where the database answers, and takes no organisation for
-- suspended where the statement fails.
org_is_suspended-reads :
    (org : String) (fault : Option String) (w : World)
    → w.faults ≡ fault ∷ []
    → (org_is_suspended {E = Error} org w).0
      ≡ ok (elim fault [ none ↦ suspended w.db org | some _ ↦ false ])
unfolding org_is_suspended get_org_status actions
org_is_suspended-reads org none w f = ground (arith, suspended_in_lem org w.db.organizations)
org_is_suspended-reads org (some msg) w f = ground arith
