-- ===== src/Rbac/Examples.antt =====
-- The theorems on authorisation for two tenants.
use heimdall.Base.{String, ◌≡◌, ◌↔◌, ◌⊎◌, refl, true, none, some, [], ◌∷◌, arith, eq_iff}
use heimdall.Base.Result.{ok}
use heimdall.Rbac.{
  ResourcePolicy, RoleDef, Identity, Decision, Store, Evaluator, next, authorize, register_role,
  reload_roles, require_permission, authorize_identity, check_role_permissions, any_role_permits,
  permits, check_if_resource, check_resource, has_effect,
}
use heimdall.Rbac.Grants.{HasPermission, HasPolicy}
use heimdall.Rbac.Decisions.{authorize-allowed, require_permission_iff}
use heimdall.Rbac.Roles.{
  permissions_in, last_def, register_role-authorize, reload_roles-permissions_in,
}

abbrev policy : String → ResourcePolicy
policy effect = record {
  effect = effect;
  action = "agents:read";
  resource_type = "agent";
  resource_id = "a1";
}

-- The one policy there is denies the agent a1.
abbrev denies_a1 : Store
denies_a1 user action resource_type resource_id = ok (policy "deny" ∷ [])

abbrev allows_and_denies : Store
allows_and_denies user action resource_type resource_id = ok (policy "deny" ∷ policy "allow" ∷ [])

abbrev reader : RoleDef
reader = record { tenant_id = "t1"; name = "reader"; permissions = "agents:read" ∷ [] }

abbrev engine : Store → Evaluator
engine store = record {
  store = some store;
  loader = some (ok (reader ∷ []));
  roles = ("t1", ("reader", "agents:read" ∷ []) ∷ []) ∷ [];
}

abbrev user : Identity
user = record { tenant_id = "t1"; user_id = "u"; roles = "reader" ∷ [] }

abbrev nobody : Identity
nobody = record { tenant_id = "t2"; user_id = "n"; roles = "reader" ∷ [] }

abbrev allowed : Decision
allowed = record { allowed = true; reason = "" }

reads : authorize (engine denies_a1) (some user) "agents:read" "" "" ≡ ok allowed
unfolding authorize authorize_identity check_role_permissions any_role_permits permits
    check_if_resource
reads = refl

-- Without a role, an allowing policy wins over a denying one.
allow_beside_deny :
    authorize (engine allows_and_denies) (some nobody) "agents:read" "agent" "a1" ≡ ok allowed
unfolding authorize authorize_identity check_role_permissions any_role_permits permits
    check_if_resource check_resource has_effect
allow_beside_deny = refl

authorize-allowed_example :
    (HasPermission (engine denies_a1) "t1" ("reader" ∷ []) "agents:read"
      × (HasPolicy "deny" (some denies_a1) user "agents:read" "" "" → ⊥))
    ⊎ HasPolicy "allow" (some denies_a1) user "agents:read" "" ""
authorize-allowed_example =
    authorize-allowed (engine denies_a1) user "agents:read" "" "" allowed reads refl

require_permission_iff_example :
    (require_permission (engine denies_a1) "agents:read" (some user) ≡ next) ↔ (
      (i : Identity) × (some user ≡ some i)
      × HasPermission (engine denies_a1) i.tenant_id i.roles "agents:read")
require_permission_iff_example = require_permission_iff (engine denies_a1) "agents:read" (some user)

register_role-authorize_example :
    authorize
      (register_role (engine denies_a1) "t1" "admin" ("*" ∷ []))
      (some nobody)
      "agents:read"
      "agent"
      "a1"
    ≡ authorize (engine denies_a1) (some nobody) "agents:read" "agent" "a1"
register_role-authorize_example =
    register_role-authorize (engine denies_a1) "t1" "admin" ("*" ∷ []) nobody "agents:read" "agent"
      "a1" (λ e. ground (arith, eq_iff "t1" "t2"))

reload_roles-permissions_in_example :
    permissions_in (reload_roles (engine denies_a1)).1.roles "t1" "reader"
    ≡ last_def none (reader ∷ []) "t1" "reader"
reload_roles-permissions_in_example =
    reload_roles-permissions_in (engine denies_a1) (reader ∷ []) "t1" "reader" refl
