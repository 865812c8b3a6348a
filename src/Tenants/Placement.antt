-- ===== src/Tenants/Placement.antt =====
-- The cluster of an organisation (internal/service/tenant_cluster.go). The provisioner of clusters
-- and the health of a backend are parameters.
use buktio.Base.{
  ℕ, String, Bool, true, not, ◌&&◌, ◌||◌, Option, none, some, List, [], ◌∷◌, ltb, str_eq,
  or_default, if◌then◌else◌,
}
use buktio.Runtime.Rows.{ProviderConfig}
use buktio.Runtime.World.{
  text, Call, Result, ok, err, Exec, ◌>>=◌, ◌>>◌, pure, raise, attempt, ignore, provision_cluster,
  read_health,
}
use buktio.Runtime.Errors.{Error, validation_err, mapped}
use buktio.Runtime.Facade.{Services, Context}
use buktio.Audit.{audit}
use buktio.Guard.{require_platform_admin}
use buktio.Storage.{ask}
use buktio.Clusters.Store.{assign_cluster_to_org}
use buktio.Clusters.Registry.{Registry, provider_for_org}
use buktio.Tenants.Store.{get_org_status, set_org_status, list_org_ids_by_status}

-- tenancy.Provisioner: the cluster of an organisation in a mode, and whether it is ready. The
-- health of a backend is its status and the number of its storage nodes that are up, where it tells
-- them.
pub record Provisioner : Type 0 where
  pub provision : List Call → String → String → String → Result String (String × Bool)
  pub health : List Call → ProviderConfig → Option (String × ℕ)

pub record TenantClusterResult : Type 0 where
  pub org_id : String
  pub cluster_id : String
  pub mode : String
  pub status : String

abbrev pub provision_failed : String → Error
provision_failed msg = record { code = "provision_failed"; message = msg; http = 502 }

abbrev pub or_unprovisioned : Result String (String × Bool) → Exec Error (String × Bool)
or_unprovisioned (ok place) = pure place
or_unprovisioned (err msg) = raise (provision_failed msg)

-- A backend that tells no health is ready.
abbrev pub is_ready : Option (String × ℕ) → Bool
is_ready none = true
is_ready (some (status, nodes)) = str_eq status "healthy" || ltb 0 nodes

module _ (s : Services) (p : Provisioner) where
  unfoldable pub assign_tenant_cluster : Context → String → String → Exec Error TenantClusterResult
  assign_tenant_cluster ctx org mode = do
    require_platform_admin ctx
    st ← mapped (get_org_status org)
    if not (str_eq mode "pooled") && not (str_eq mode "dedicated")
        then raise (validation_err "mode must be 'pooled' or 'dedicated'")
        else pure tt
    answer ← ask (λ t. p.provision t org mode s.cluster_id) (provision_cluster org mode)
    place ← or_unprovisioned answer
    let cluster = or_default s.cluster_id place.0
    mapped (assign_cluster_to_org org cluster true)
    let status = if place.1 then "active" else "pending_setup"
    mapped (set_org_status org status)
    audit s ctx "org.assign_tenant_cluster" "organization" org
        (some (("mode", text mode) ∷ ("cluster_id", text cluster) ∷ ("status", text status) ∷ []))
    pure (record { org_id = org; cluster_id = cluster; mode = mode; status = status })

  -- The body of the loop of reconcilePendingOrgs.
  unfoldable pub reconcile_org : Registry → String → Exec String (Unit {0})
  reconcile_org r org = do
    found ← attempt (provider_for_org r org)
    elim found [
      | none ↦ pure tt
      | some (provider, cluster) ↦
          (if str_eq cluster "" then pure tt else do
            health ← ask (λ t. p.health t provider) (read_health cluster)
            if is_ready health then ignore (set_org_status org "active") else pure tt)
    ]

  unfoldable pub reconcile_each : Registry → List String → Exec String (Unit {0})
  unfolding reconcile_org
  reconcile_each r [] = pure tt
  reconcile_each r (org ∷ orgs) = do reconcile_org r org; reconcile_each r orgs

  unfoldable pub reconcile_pending_orgs : Registry → Exec String (Unit {0})
  unfolding reconcile_each
  reconcile_pending_orgs r = do
    orgs ← attempt (list_org_ids_by_status "pending_setup")
    elim orgs [ none ↦ pure tt | some ids ↦ reconcile_each r ids ]
