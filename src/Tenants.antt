-- ===== src/Tenants.antt =====
-- The lifecycle of an organisation (internal/service/tenants.go).
pub mod Store
pub mod Lifecycle
pub mod Placement
use buktio.Base.{
  ℕ, String, Bool, true, false, not, ◌&&◌, Option, none, some, List, [], ◌∷◌, str_eq, if◌then◌else◌,
}
use buktio.Base.Int.{ℤ, pos, ltb_ℤ, pos_part}
use buktio.Runtime.World.{
  World, text, number, null, RepoErr, Exec, ◌>>=◌, ◌>>◌, pure, raise, attempt, or_zero,
}
use buktio.Runtime.Errors.{Error, validation_err, mapped}
use buktio.Runtime.Facade.{Services, Context}
use buktio.Audit.{audit}
use buktio.Guard.{require_platform_admin}
use buktio.Tenants.Store.{get_org_status, suspend_row, resume_row, set_quota_row, org_usage_totals}

-- OrgStatusDTO; the time of the suspension is not formatted.
pub record OrgStatusDto : Type 0 where
  pub org_id : String
  pub status : String
  pub suspended_at : Option ℕ
  pub suspend_reason : String
  pub quota_max_bytes : Option ℤ
  pub bytes_used : ℕ

module _ (s : Services) (ctx : Context) where
  unfoldable pub org_status : String → Exec Error OrgStatusDto
  org_status org = do
    require_platform_admin ctx
    st ← mapped (get_org_status org)
    used ← or_zero (0, 0) (org_usage_totals org)
    pure (record {
      org_id = org;
      status = st.status;
      suspended_at = st.suspended_at;
      suspend_reason = st.suspend_reason;
      quota_max_bytes = st.quota_max_bytes;
      bytes_used = used.0;
    })

  unfoldable pub suspend_org : String → String → Exec Error (Unit {0})
  suspend_org org reason = do
    require_platform_admin ctx
    mapped (suspend_row org reason)
    audit s ctx "org.suspend" "organization" org (some (("reason", text reason) ∷ []))

  unfoldable pub resume_org : String → Exec Error (Unit {0})
  resume_org org = do
    require_platform_admin ctx
    mapped (resume_row org)
    audit s ctx "org.resume" "organization" org none

  -- The audited value of a cleared quota is `null`, which is written as a text here.
  unfoldable pub set_org_quota : String → Option ℤ → Exec Error (Unit {0})
  set_org_quota org max = do
    require_platform_admin ctx
    if elim max [ none ↦ false | some m ↦ ltb_ℤ m (pos 0) ]
        then raise (validation_err "quota_max_bytes must be >= 0")
        else pure tt
    mapped (set_quota_row org max)
    audit s ctx "org.set_quota" "organization" org
        (some (("quota_max_bytes", elim max [ none ↦ null | some m ↦ number (pos_part m) ]) ∷ []))

-- A lookup that fails counts as not suspended.
unfoldable pub org_is_suspended : {E : Type 0} → String → Exec E Bool
org_is_suspended org = if str_eq org "" then pure false else do
  st ← attempt (get_org_status org)
  pure (elim st [ none ↦ false | some o ↦ str_eq o.status "suspended" ])
