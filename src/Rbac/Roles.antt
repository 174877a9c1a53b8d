-- ===== src/Rbac/Roles.antt =====
-- The in-memory roles: their separation by tenant, and what a reload leaves.
use heimdall.Base.{
  String, ◌≡◌, ◌≢◌, refl, ap, ◌∙◌, inl, inr, ◌&&◌, Option, none, some, List, [], ◌∷◌, arith, ◌==◌,
  eq_iff, Bool-cases, if◌then◌else◌,
}
use heimdall.Base.Map.{get, put}
use heimdall.Base.Result.{ok}
use heimdall.Rbac.{
  Identity, RoleDef, RoleMap, Evaluator, roles_of, put_role, load_roles, register_role,
  reload_roles, check_role_permissions, authorize_identity, authorize,
}

get-put_other :
    (k j : String) (v : RoleMap) (m : List (String × RoleMap)) → j ≢ k → get k (put j v m) ≡ get k m
get-put_other k j v m other = ground (arith, eq_iff j k)

-- A role that is registered for one tenant changes no decision on an identity of another.
pub register_role-authorize :
    (e : Evaluator) (tenant_id name : String) (permissions : List String) (i : Identity)
    (action resource_type resource_id : String)
    → tenant_id ≢ i.tenant_id
    → authorize
        (register_role e tenant_id name permissions)
        (some i)
        action
        resource_type
        resource_id
      ≡ authorize e (some i) action resource_type resource_id
unfolding authorize authorize_identity check_role_permissions register_role put_role
register_role-authorize e tenant_id name permissions i action resource_type resource_id other =
    let same =
      get-put_other i.tenant_id tenant_id (put name permissions (roles_of (get tenant_id e.roles)))
        e.roles other in
    rw same refl

-- The permissions of a role of a tenant.
abbrev pub permissions_in : List (String × RoleMap) → String → String → Option (List String)
permissions_in roles tenant_id name = get name (roles_of (get tenant_id roles))

-- The last of the definitions with that tenant and name, or else what is given.
abbrev pub last_def : Option (List String) → List RoleDef → String → String → Option (List String)
last_def before [] tenant_id name = before
last_def before (d ∷ defs) tenant_id name =
    last_def (if d.tenant_id == tenant_id && d.name == name then some d.permissions else before)
      defs tenant_id name

put_role-permissions_in :
    (roles : List (String × RoleMap)) (d : RoleDef) (tenant_id name : String)
    → permissions_in (put_role roles d.tenant_id d.name d.permissions) tenant_id name ≡ (
        if d.tenant_id == tenant_id && d.name == name
        then some d.permissions
        else permissions_in roles tenant_id name)
unfolding put_role
put_role-permissions_in roles d tenant_id name = elim (Bool-cases (d.tenant_id == tenant_id)) [
  | inr other ↦ rw other refl
  | inl hit ↦
      let same = (eq_iff d.tenant_id tenant_id).0 hit in
      let kept = ap (λ (t : String). get t roles) same in
      elim (Bool-cases (d.name == name)) [
        | inl named ↦ rw (hit, named) refl
        | inr renamed ↦ rw (hit, renamed, kept) refl
      ]
]

load_roles-permissions_in :
    (roles : List (String × RoleMap)) (defs : List RoleDef) (tenant_id name : String)
    → permissions_in (load_roles roles defs) tenant_id name
      ≡ last_def (permissions_in roles tenant_id name) defs tenant_id name
unfolding load_roles
load_roles-permissions_in roles [] tenant_id name = refl
load_roles-permissions_in roles (d ∷ defs) tenant_id name =
    load_roles-permissions_in (put_role roles d.tenant_id d.name d.permissions) defs tenant_id name
    ∙ ap (λ before. last_def before defs tenant_id name)
        (put_role-permissions_in roles d tenant_id name)

-- After a reload that the loader answers, a role has the permissions of its last definition, and no
-- role that is not defined is left.
pub reload_roles-permissions_in :
    (e : Evaluator) (defs : List RoleDef) (tenant_id name : String)
    → e.loader ≡ some (ok defs)
    → permissions_in (reload_roles e).1.roles tenant_id name ≡ last_def none defs tenant_id name
unfolding reload_roles
reload_roles-permissions_in e defs tenant_id name loaded =
    rw loaded (load_roles-permissions_in [] defs tenant_id name)
