-- ===== src/Policies/Lockout.antt =====
-- No policy binds the owners (internal/service/policies.go, internal/repository/policies.go).
use buktio.Base.{
  ◌≡◌, refl, String, Bool, true, false, not, ◌&&◌, Option, none, some, List, [], ◌∷◌, ◌++◌, arith,
  str_eq, select, any, update_where, if◌then◌else◌,
}
use buktio.Runtime.Rows.{Db, Policy}
use buktio.Runtime.World.{
  World, Call, RepoErr, Metadata, Exec, ◌>>=◌, ◌>>◌, raise, pure, put_db, violation,
}
use buktio.Runtime.Errors.{Error, actions}
use buktio.Runtime.Facade.{Services, Context}
use buktio.Runtime.Holds.{
  Holds, holds_rules, Holds-bind, Holds-pure, Holds-statement, Holds-wrapped,
}
use buktio.Audit.{audit}
use buktio.Audit.Frame.{audit-Holds}
use buktio.Guard.{policy_actor}
use buktio.Policies.Store.{
  policy_of, bound_to, insert_policy, bind_role, bind_roles, create_policy_row, change_policies,
  set_enabled_row, delete_policy_row,
}
use buktio.Policies.{
  CreatePolicyInput, role_error, or_unbound, create_policy, set_policy_enabled, delete_policy,
}

abbrev pub is_owner : String → Bool
is_owner role = str_eq role "owner"

abbrev pub binds_owner : Policy → Bool
binds_owner p = any is_owner p.roles

-- Whether no policy of a table binds the owners.
abbrev pub spares_owners : List Policy → Bool
spares_owners [] = true
spares_owners (p ∷ ps) = not (binds_owner p) && spares_owners ps

abbrev SparesOwners : List Call → Db → Type 0
SparesOwners trail db = spares_owners db.policies ≡ true

any-append :
    (role : String) (roles : List String)
    → is_owner role ≡ false
    → any is_owner roles ≡ false
    → any is_owner (roles ++ role ∷ []) ≡ false
any-append role [] h k = ground (arith, h)
any-append role (r ∷ rs) h k = ground (arith, h, k, any-append role rs h)

binds_owner-bound_to :
    (role : String) (p : Policy)
    → is_owner role ≡ false
    → binds_owner p ≡ false
    → binds_owner (bound_to role p) ≡ false
binds_owner-bound_to role p h k = ground (arith, h, k, any-append role p.roles h k)

spares_owners-update_where :
    (q : Policy → Bool) (f : Policy → Policy) (ps : List Policy)
    → ((p : Policy) → binds_owner p ≡ false → binds_owner (f p) ≡ false)
    → spares_owners ps ≡ true
    → spares_owners (update_where q f ps) ≡ true
spares_owners-update_where q f [] k h = refl
spares_owners-update_where q f (p ∷ ps) k h =
    ground (arith, h, k p, spares_owners-update_where q f ps k)

spares_owners-select :
    (q : Policy → Bool) (ps : List Policy)
    → spares_owners ps ≡ true
    → spares_owners (select q ps) ≡ true
spares_owners-select q [] h = refl
spares_owners-select q (p ∷ ps) h = ground (arith, h, spares_owners-select q ps)

-- Roles that can be bound do not name the owner.
role_error-head : (r : String) (rs : List String) → role_error (r ∷ rs) ≡ none → is_owner r ≡ false
unfolding role_error
role_error-head r rs h = ground (arith, h)

role_error-tail :
    (r : String) (rs : List String) → role_error (r ∷ rs) ≡ none → role_error rs ≡ none
unfolding role_error
role_error-tail r rs h = ground (arith, h)

module _ (s : Services) where
  inserted_at :
      (unknown : Bool) (p : Policy) (id : String) (w : World)
      → p.roles ≡ []
      → spares_owners w.db.policies ≡ true
      → let insert : Exec RepoErr String =
          if unknown
          then raise violation
          else put_db (record w.db { policies = p ∷ w.db.policies }) >> pure id in
        spares_owners (insert w).1.db.policies ≡ true
  unfolding actions
  inserted_at true p id w e h = h
  inserted_at false p id w e h = rw (e, h)

  insert_policy-Holds :
      (org name template : String) (config : List (String × String))
      → Holds SparesOwners (insert_policy s org name template config)
  unfolding insert_policy actions
  insert_policy-Holds org name template config =
      Holds-wrapped _ _ (Holds-statement _ (record { at = λ w h. ground (arith, h) }))

bind_role-Holds :
    (id role : String) → is_owner role ≡ false → Holds SparesOwners (bind_role id role)
unfolding bind_role put_db
bind_role-Holds id role h = Holds-wrapped _ _ (
    Holds-statement _ (record {
      at = λ w k.
          spares_owners-update_where (λ p. str_eq p.id id) (bound_to role) w.db.policies
            (λ p e. binds_owner-bound_to role p h e) k;
    }))

bind_roles-Holds :
    (id : String) (roles : List String)
    → role_error roles ≡ none
    → Holds SparesOwners (bind_roles id roles)
unfolding bind_roles
bind_roles-Holds id [] h = Holds-pure tt
bind_roles-Holds id (r ∷ rs) h =
    Holds-bind _ _ (bind_role-Holds id r (role_error-head r rs h))
      (λ _. bind_roles-Holds id rs (role_error-tail r rs h))

change_policies-Holds :
    (prefix org id : String) (f : List Policy → List Policy)
    → ((ps : List Policy) → spares_owners ps ≡ true → spares_owners (f ps) ≡ true)
    → Holds SparesOwners (change_policies prefix org id f)
unfolding change_policies actions
change_policies-Holds prefix org id f k =
    Holds-wrapped _ _
      (Holds-statement _ (record { at = λ w h. ground (arith, h, k w.db.policies) }))

module _ (s : Services) (ctx : Context) where
  audited :
      (action target id : String) (metadata : Option Metadata)
      → Holds SparesOwners (audit s {E = Error} ctx action target id metadata)
  audited action target id metadata = audit-Holds s ctx action target id metadata (λ ev t d h. h)

  create_row-Holds :
      (org name template : String) (config : List (String × String)) (roles : List String)
      → role_error roles ≡ none
      → Holds SparesOwners (create_policy_row s org name template config roles)
  unfolding create_policy_row
  create_row-Holds org name template config roles h =
      search (holds_rules, insert_policy-Holds s, bind_roles-Holds, h)

  -- The rows are written only where every role can be bound.
  checked-Holds :
      (roles : List String) (failure : Option String) (k : Exec Error String)
      → role_error roles ≡ failure
      → (role_error roles ≡ none → Holds SparesOwners k)
      → Holds SparesOwners (or_unbound failure >> k)
  unfolding raise ◌>>=◌
  checked-Holds roles none k e kk = Holds-bind _ _ (Holds-pure tt) (λ _. kk e)
  checked-Holds roles (some msg) k e kk = record { at = λ w h. h }

  create_policy-Holds : (input : CreatePolicyInput) → Holds SparesOwners (create_policy s ctx input)
  unfolding create_policy policy_actor
  create_policy-Holds input = Holds-bind _ _ (search holds_rules) (λ _.
      Holds-bind _ _ (search holds_rules) (λ _. Holds-bind _ _ (search holds_rules) (λ _.
        checked-Holds input.roles _ _ refl
          (λ h. search (holds_rules, create_row-Holds, h, audited)))))

  enabled-Holds :
      (org id : String) (enabled : Bool) → Holds SparesOwners (set_enabled_row org id enabled)
  unfolding set_enabled_row
  enabled-Holds org id enabled = change_policies-Holds _ org id _ (λ ps h.
      spares_owners-update_where (policy_of org id) (λ p. record p { enabled = enabled }) ps
        (λ p e. e) h)

  set_policy_enabled-Holds :
      (id : String) (enabled : Bool) → Holds SparesOwners (set_policy_enabled s ctx id enabled)
  unfolding set_policy_enabled policy_actor
  set_policy_enabled-Holds id enabled = search (holds_rules, enabled-Holds, audited)

  deleted-Holds : (org id : String) → Holds SparesOwners (delete_policy_row org id)
  unfolding delete_policy_row
  deleted-Holds org id =
      change_policies-Holds _ org id _ (spares_owners-select (λ p. not (policy_of org id p)))

  delete_policy-Holds : (id : String) → Holds SparesOwners (delete_policy s ctx id)
  unfolding delete_policy policy_actor
  delete_policy-Holds id = search (holds_rules, deleted-Holds, audited)

-- Whatever statement fails: creating a policy, switching one and deleting one keep the owners free
-- of policies: where no policy binds the role of the owners, none does afterwards.
pub policies-spare_owners :
    (s : Services) (ctx : Context) (input : CreatePolicyInput) (id : String) (enabled : Bool)
    (w : World)
    → spares_owners w.db.policies ≡ true
    → (spares_owners (create_policy s ctx input w).1.db.policies ≡ true)
      × (spares_owners (set_policy_enabled s ctx id enabled w).1.db.policies ≡ true)
      × (spares_owners (delete_policy s ctx id w).1.db.policies ≡ true)
policies-spare_owners s ctx input id enabled w h = (
  (create_policy-Holds s ctx input).at w h,
  (set_policy_enabled-Holds s ctx id enabled).at w h,
  (delete_policy-Holds s ctx id).at w h,
)
