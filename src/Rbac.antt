-- ===== src/Rbac.antt =====
-- internal/rbac: the evaluator of roles and resource policies (evaluator.go) and the middleware that
-- asks it (middleware.go). The store of resource policies is a parameter. The lock is left out: each
-- operation reads or writes the roles at once.
pub mod Grants
pub mod Decisions
pub mod Roles
mod Examples
use Prim.Native.String.{◌++◌ as concat}
use heimdall.Base.{
  String, Bool, true, false, ◌&&◌, ◌||◌, not, Option, none, some, List, [], ◌∷◌, ◌==◌,
  if◌then◌else◌,
}
use heimdall.Base.Map.{get, put}
use heimdall.Base.Result.{Result, ok, err, ◌>>=◌}

pub data Error : Type 0 where
  no_role_loader loading_failed checking_failed : Error

pub record ResourcePolicy : Type 0 where
  pub effect : String
  pub action : String
  pub resource_type : String
  pub resource_id : String

pub record RoleDef : Type 0 where
  pub tenant_id : String
  pub name : String
  pub permissions : List String

pub record Identity : Type 0 where
  pub tenant_id : String
  pub user_id : String
  pub roles : List String

pub record Decision : Type 0 where
  pub allowed : Bool
  pub reason : String

abbrev pub RoleMap : Type 0
RoleMap = List (String × List String)

-- `GetResourcePolicies` for the subject type "user".
abbrev pub Store : Type 0
Store = String → String → String → String → Result Error (List ResourcePolicy)

pub record Evaluator : Type 0 where
  pub store : Option Store
  pub loader : Option (Result Error (List RoleDef))
  pub roles : List (String × RoleMap)

-- A nil inner map reads as an empty one.
abbrev pub roles_of : Option RoleMap → RoleMap
roles_of none = []
roles_of (some tenant) = tenant

unfoldable pub put_role :
    List (String × RoleMap) → String → String → List String → List (String × RoleMap)
put_role roles tenant_id name permissions =
    put tenant_id (put name permissions (roles_of (get tenant_id roles))) roles

unfoldable pub load_roles : List (String × RoleMap) → List RoleDef → List (String × RoleMap)
unfolding put_role
load_roles roles [] = roles
load_roles roles (d ∷ defs) = load_roles (put_role roles d.tenant_id d.name d.permissions) defs

abbrev pub reload_from : Option (Result Error (List RoleDef)) → Evaluator → Option Error × Evaluator
reload_from none e = (some no_role_loader, e)
reload_from (some (err _)) e = (some loading_failed, e)
reload_from (some (ok defs)) e = (none, record e { roles = load_roles [] defs })

unfoldable pub reload_roles : Evaluator → Option Error × Evaluator
reload_roles e = reload_from e.loader e

unfoldable pub register_role : Evaluator → String → String → List String → Evaluator
register_role e tenant_id name permissions = record e {
  roles = put_role e.roles tenant_id name permissions;
}

unfoldable pub permits : List String → String → Bool
permits [] action = false
permits (perm ∷ perms) action = perm == "*" || perm == action || permits perms action

abbrev pub permissions_of : Option (List String) → List String
permissions_of none = []
permissions_of (some perms) = perms

unfoldable pub any_role_permits : RoleMap → List String → String → Bool
unfolding permits
any_role_permits tenant [] action = false
any_role_permits tenant (role ∷ roles) action =
    permits (permissions_of (get role tenant)) action || any_role_permits tenant roles action

unfoldable pub check_role_permissions : Evaluator → String → List String → String → Bool
unfolding any_role_permits
check_role_permissions e tenant_id roles action =
    any_role_permits (roles_of (get tenant_id e.roles)) roles action

unfoldable pub has_effect : String → List ResourcePolicy → Bool
has_effect effect [] = false
has_effect effect (p ∷ policies) = p.effect == effect || has_effect effect policies

-- `checkResourceDeny` and `checkResourceAllow`, which differ in the effect they look for.
unfoldable pub check_resource :
    String → Store → Identity → String → String → String → Result Error Bool
check_resource effect store identity action resource_type resource_id =
    store identity.user_id action resource_type resource_id >>= λ policies.
    ok (has_effect effect policies)

-- What a nil store or an empty resource skips.
unfoldable pub check_if_resource :
    String → Option Store → Identity → String → String → String → Result Error Bool
unfolding check_resource
check_if_resource effect none identity action resource_type resource_id = ok false
check_if_resource effect (some store) identity action resource_type resource_id =
    if not (resource_type == "") && not (resource_id == "")
    then check_resource effect store identity action resource_type resource_id
    else ok false

abbrev pub denial : String → String → String → String
denial action resource_type resource_id =
    concat "resource policy denies "
      (concat action (concat " on " (concat resource_type (concat "/" resource_id))))

unfoldable pub authorize_identity :
    Evaluator → Identity → String → String → String → Result Error Decision
unfolding check_role_permissions check_if_resource
authorize_identity e identity action resource_type resource_id =
    if check_role_permissions e identity.tenant_id identity.roles action
    then check_if_resource "deny" e.store identity action resource_type resource_id >>= (λ denied.
      ok (
        if denied
        then record { allowed = false; reason = denial action resource_type resource_id }
        else record { allowed = true; reason = "" }))
    else check_if_resource "allow" e.store identity action resource_type resource_id >>= (λ allowed.
      ok (
        if allowed
        then record { allowed = true; reason = "" }
        else record { allowed = false; reason = concat "no permission for " action }))

unfoldable pub authorize :
    Evaluator → Option Identity → String → String → String → Result Error Decision
unfolding authorize_identity
authorize e none action resource_type resource_id =
    ok (record { allowed = false; reason = "no identity" })
authorize e (some identity) action resource_type resource_id =
    authorize_identity e identity action resource_type resource_id

pub data Response : Type 0 where
  unauthorized internal_server_error next : Response
  forbidden : String → Response

abbrev pub respond : Result Error Decision → Response
respond (err _) = internal_server_error
respond (ok decision) = if decision.allowed then next else forbidden decision.reason

unfoldable pub require_permission : Evaluator → String → Option Identity → Response
unfolding authorize
require_permission engine permission none = unauthorized
require_permission engine permission (some identity) =
    respond (authorize engine (some identity) permission "" "")
