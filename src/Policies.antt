-- ===== src/Policies.antt =====
-- Access policies of an organisation (internal/service/policies.go).
pub mod Store
pub mod Lockout
use buktio.Base.{
  ℕ, String, ◌<>◌, Bool, true, false, not, ◌||◌, Option, none, some, List, [], ◌∷◌, str_eq,
  if◌then◌else◌,
}
use buktio.Runtime.Rows.{Policy}
use buktio.Runtime.World.{text, texts, flag, Exec, ◌>>=◌, ◌>>◌, pure, raise}
use buktio.Runtime.Errors.{Error, validation_err, mapped}
use buktio.Runtime.Facade.{Services, Context, tenant}
use buktio.Audit.{audit}
use buktio.Guard.{policy_actor}
use buktio.Policies.Store.{create_policy_row, set_enabled_row, delete_policy_row, policy_rows}

pub record PolicyDto : Type 0 where
  pub id : String
  pub name : String
  pub template : String
  pub config : List (String × String)
  pub enabled : Bool
  pub roles : List String
  pub created_at : ℕ

pub record CreatePolicyInput : Type 0 where
  pub name : String
  pub template : String
  pub config : List (String × String)
  pub roles : List String

abbrev pub policy_dtos : List Policy → List PolicyDto
policy_dtos [] = []
policy_dtos (p ∷ ps) =
    record {
      id = p.id;
      name = p.name;
      template = p.template;
      config = p.config;
      enabled = p.enabled;
      roles = p.roles;
      created_at = p.created_at;
    }
    ∷ policy_dtos ps

unfoldable pub valid_policy_template : String → Bool
valid_policy_template t =
    str_eq t "ip_allowlist" || str_eq t "business_hours" || str_eq t "read_only"

-- The first role that cannot be bound.
unfoldable pub role_error : List String → Option String
role_error [] = none
role_error (r ∷ rs) =
    let rest = role_error rs in
    if str_eq r "owner"
    then some "owners cannot be bound to a policy (no lock-out)"
    else if str_eq r "admin" || str_eq r "member" || str_eq r "viewer"
    then rest
    else some ("invalid role: " <> r)

abbrev pub or_unbound : Option String → Exec Error (Unit {0})
or_unbound none = pure tt
or_unbound (some msg) = raise (validation_err msg)

module _ (s : Services) (ctx : Context) where
  unfoldable pub list_policies : Exec Error (List PolicyDto)
  list_policies = do
    policy_actor ctx
    rows ← mapped (policy_rows (tenant s ctx).org_id)
    pure (policy_dtos rows)

  unfoldable pub create_policy : CreatePolicyInput → Exec Error String
  create_policy input = do
    policy_actor ctx
    if str_eq input.name "" then raise (validation_err "name is required") else pure tt
    if not (valid_policy_template input.template)
        then raise (validation_err "unknown policy template")
        else pure tt
    or_unbound (role_error input.roles)
    id ← mapped (
        create_policy_row s (tenant s ctx).org_id input.name input.template input.config
          input.roles)
    audit s ctx "policy.create" "policy" id
        (some (("template", text input.template) ∷ ("roles", texts input.roles) ∷ []))
    pure id

  unfoldable pub set_policy_enabled : String → Bool → Exec Error (Unit {0})
  set_policy_enabled id enabled = do
    policy_actor ctx
    mapped (set_enabled_row (tenant s ctx).org_id id enabled)
    audit s ctx "policy.set_enabled" "policy" id (some (("enabled", flag enabled) ∷ []))

  unfoldable pub delete_policy : String → Exec Error (Unit {0})
  delete_policy id = do
    policy_actor ctx
    mapped (delete_policy_row (tenant s ctx).org_id id)
    audit s ctx "policy.delete" "policy" id none
