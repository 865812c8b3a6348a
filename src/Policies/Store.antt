-- ===== src/Policies/Store.antt =====
-- The statements on access policies (internal/repository/policies.go). The roles of a policy, which
-- have a table of their own, stand in its row.
use buktio.Base.{
  String, Bool, true, not, ◌&&◌, List, [], ◌∷◌, ◌++◌, str_eq, select, any, update_where,
  if◌then◌else◌,
}
use buktio.Runtime.Rows.{Policy, Organization}
use buktio.Runtime.World.{
  RepoErr, not_found, violation, Exec, ◌>>=◌, ◌>>◌, pure, raise, gets, statement, wrapped, put_db,
  draw,
}
use buktio.Runtime.Facade.{Services}

abbrev pub policy_of : String → String → Policy → Bool
policy_of org id p = str_eq p.id id && str_eq p.org_id org

unfoldable pub insert_policy :
    Services → String → String → String → List (String × String) → Exec RepoErr String
insert_policy s org name template config = wrapped "repository: create policy: " (
    statement (λ w.
      (if not (any (λ (o : Organization). str_eq o.id org) w.db.organizations)
          then raise violation
          else do
            n ← draw
            let id = s.lib.new_uuid n
            put_db (record w.db {
              policies =
                  record {
                    id = id;
                    org_id = org;
                    name = name;
                    template = template;
                    config = config;
                    enabled = true;
                    roles = [];
                    created_at = w.now;
                  }
                  ∷ w.db.policies;
            })
            pure id)
        w))

-- `ON CONFLICT DO NOTHING`
abbrev pub bound_to : String → Policy → Policy
bound_to role p = record p {
  roles = if any (str_eq role) p.roles then p.roles else p.roles ++ role ∷ [];
}

unfoldable pub bind_role : String → String → Exec RepoErr (Unit {0})
bind_role id role = wrapped "repository: bind policy role: " (
    statement (λ w.
      put_db
        (record w.db {
          policies = update_where (λ (p : Policy). str_eq p.id id) (bound_to role) w.db.policies;
        })
        w))

unfoldable pub bind_roles : String → List String → Exec RepoErr (Unit {0})
unfolding bind_role
bind_roles id [] = pure tt
bind_roles id (role ∷ roles) = do bind_role id role; bind_roles id roles

-- Store.CreatePolicy: its statements are in no transaction.
unfoldable pub create_policy_row :
    Services → String → String → String → List (String × String) → List String → Exec RepoErr String
unfolding insert_policy bind_roles
create_policy_row s org name template config roles = do
  id ← insert_policy s org name template config
  bind_roles id roles
  pure id

-- A statement that must change a row.
unfoldable pub change_policies :
    String → String → String → (List Policy → List Policy) → Exec RepoErr (Unit {0})
change_policies prefix org id f = wrapped prefix (
    statement (λ w.
      (if not (any (policy_of org id) w.db.policies)
          then raise not_found
          else put_db (record w.db { policies = f w.db.policies }))
        w))

-- Store.SetPolicyEnabled
unfoldable pub set_enabled_row : String → String → Bool → Exec RepoErr (Unit {0})
unfolding change_policies
set_enabled_row org id enabled =
    change_policies "repository: set policy enabled: " org id
      (update_where (policy_of org id) (λ (p : Policy). record p { enabled = enabled }))

-- Store.DeletePolicy
unfoldable pub delete_policy_row : String → String → Exec RepoErr (Unit {0})
unfolding change_policies
delete_policy_row org id =
    change_policies "repository: delete policy: " org id
      (select (λ (p : Policy). not (policy_of org id p)))

-- Store.ListPolicies
unfoldable pub policy_rows : String → Exec RepoErr (List Policy)
policy_rows org =
    wrapped "repository: list policies: "
      (statement (gets (λ w. select (λ (p : Policy). str_eq p.org_id org) w.db.policies)))

unfoldable pub enabled_policies_for_authz : String → Exec RepoErr (List Policy)
unfolding policy_rows
enabled_policies_for_authz org = do
  rows ← policy_rows org
  pure (select (λ (p : Policy). p.enabled) rows)
