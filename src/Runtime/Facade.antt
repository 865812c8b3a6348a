-- ===== src/Runtime/Facade.antt =====
-- The facade of the services: its configuration, what it is given by other packages, and the
-- context of a request (internal/service/service.go, tenant_context.go, internal/authz/authz.go,
-- internal/authz/context.go, internal/entitlements/entitlements.go).
use buktio.Base.{
  ℕ, String, Bool, true, false, not, Option, none, some, List, [], str_eq, if◌then◌else◌,
}
use buktio.Base.Int
use buktio.Base.Int.{ℤ}
use buktio.Runtime.World.{Metadata, Result}

-- authz.Subject
pub record Subject : Type 0 where
  pub user_id : String
  pub tenant_id : String
  pub role : String
  pub platform_admin : Bool
  pub ip : String
  pub now : ℕ

abbrev pub zero_subject : Subject
zero_subject = record {
  user_id = "";
  tenant_id = "";
  role = "";
  platform_admin = false;
  ip = "";
  now = 0;
}

-- authz.Target
pub record Target : Type 0 where
  pub kind : String
  pub id : String
  pub project_id : String
  pub attributes : List (String × String)

abbrev pub target_of : String → String → Target
target_of kind id = record { kind = kind; id = id; project_id = ""; attributes = [] }

pub record Decision : Type 0 where
  pub allowed : Bool
  pub reason : String

-- entitlements.Limit; `max` is an int64.
pub record Limit : Type 0 where
  pub unlimited : Bool
  pub max : ℤ

pub record TenantContext : Type 0 where
  pub org_id : String
  pub project_id : String
  pub cluster_id : String

-- The values that the auth middleware attaches to a context.
pub record Context : Type 0 where
  pub subject : Option Subject
  pub tenant : Option TenantContext

abbrev pub background : Context
background = record { subject = none; tenant = none }

-- What the code calls of Go's standard library and of other packages.
pub record Lib : Type 0 where
  pub sha256 : String → String
  -- `%d`
  pub itoa : ℕ → String
  pub format_rfc3339_nano : ℕ → String
  pub marshal : Metadata → Option String
  -- The text of a jsonb value that was given as a text.
  pub jsonb_text : String → String
  -- auth.NewToken, argon2id and gen_random_uuid at the n-th random draw.
  pub new_token : ℕ → Result String String
  pub hash_password : ℕ → String → Result String String
  pub new_uuid : ℕ → String
  pub to_lower : String → String
  pub to_upper : String → String
  pub trim_space : String → String
  -- strings.TrimRight with "/"
  pub trim_slashes : String → String
  -- auth.VerifyPassword of a password and a hash.
  pub verify_password : String → String → Result String Bool
  -- orgSlug of a name at the n-th random draw.
  pub org_slug : String → ℕ → String
  -- The last four bytes of a text, or all of it.
  pub last_four : String → String

-- The facade. `can`, `allowed` and `limit` are the enforcers of the edition.
pub record Services : Type 0 where
  pub org_id : String
  pub project_id : String
  pub cluster_id : String
  pub public_base_url : String
  pub system_key_id : String
  pub web_public_domain : String
  pub database_url : String
  pub backup_dir : String
  pub offsite_bucket : String
  pub offsite_access_key : String
  pub offsite_secret : String
  pub self_serve_signup : Bool
  pub signup_dev_return_token : Bool
  pub is_sqlite : Bool
  pub can : Subject → String → Target → Decision
  pub enforces : Bool
  pub allowed : String → String → Bool
  pub limit : String → String → Limit
  pub lib : Lib

-- authz.SubjectFrom: the zero subject where none is attached.
unfoldable pub subject_from : Context → Subject × Bool
subject_from ctx = elim ctx.subject [ some s ↦ (s, true) | none ↦ (zero_subject, false) ]

abbrev pub with_tenant : Context → TenantContext → Context
with_tenant ctx t = record ctx { tenant = some t }

-- `s.tenant(ctx)`: the attached tenant, with the boot-time cluster where it names none; else the
-- boot-time tenant.
unfoldable pub tenant : Services → Context → TenantContext
tenant s ctx = elim ctx.tenant [
  | some t ↦
      if not (str_eq t.org_id "")
      then (if str_eq t.cluster_id "" then record t { cluster_id = s.cluster_id } else t)
      else record { org_id = s.org_id; project_id = s.project_id; cluster_id = s.cluster_id }
  | none ↦ record { org_id = s.org_id; project_id = s.project_id; cluster_id = s.cluster_id }
]

-- currentUserID
unfoldable pub current_user_id : Context → String
unfolding subject_from
current_user_id ctx = (subject_from ctx).0.user_id

-- auth.HashToken
abbrev pub hash_token : Services → String → String
hash_token s token = s.lib.sha256 token

-- authz.PermitAll and entitlements.AlwaysAllow, the enforcers of the open-source edition.
abbrev pub permit_all : Subject → String → Target → Decision
permit_all _ _ _ = record { allowed = true; reason = "" }

abbrev pub always_allowed : String → String → Bool
always_allowed _ _ = true

abbrev pub always_unlimited : String → String → Limit
always_unlimited _ _ = record { unlimited = true; max = Int.ℤ.pos 0 }
