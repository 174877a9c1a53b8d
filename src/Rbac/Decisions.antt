-- ===== src/Rbac/Decisions.antt =====
-- Who is allowed what.
use Prim.Native.String.{◌++◌ as concat}
use heimdall.Base.{
  String, ◌≡◌, ◌↔◌, ◌⊎◌, refl, sym, ap, subst, ◌∙◌, if◌then◌else◌, inl, inr, Bool, true, false,
  Option, none, some, arith, Bool-cases,
}
use heimdall.Base.Result
use mathlib.Core.Option.{some-injective}
use heimdall.Base.Result.{Result, ok, err, ok-injective}
use heimdall.Rbac.{
  Identity, Decision, Store, Evaluator, Error, check_role_permissions, check_if_resource,
  authorize_identity, authorize, require_permission, next, forbidden,
}
use heimdall.Rbac.Grants.{
  HasPermission, HasPolicy, check_role_permissions_iff, check_if_resource-none,
  check_if_resource-HasPolicy,
}

bind-allowed :
    (r : Result Error Bool) (d : Decision) (f : Bool → Decision)
    → Result.◌>>=◌ r (λ b. ok (f b)) ≡ ok d
    → (b : Bool) × (r ≡ ok b) × (f b ≡ d)
bind-allowed (ok b) d f h = (b, refl, ok-injective {E = Error} (f b) d h)
bind-allowed (err e) d f h = absurd (ground arith)

-- Who is allowed: an identity one of whose roles has, in its own tenant, the permission or the
-- wildcard, unless a policy denies it the resource; or an identity to whom a policy allows the resource.
pub authorize-allowed :
    (e : Evaluator) (i : Identity) (action resource_type resource_id : String) (d : Decision)
    → authorize e (some i) action resource_type resource_id ≡ ok d
    → d.allowed ≡ true
    → (HasPermission e i.tenant_id i.roles action
        × (HasPolicy "deny" e.store i action resource_type resource_id → ⊥))
      ⊎ HasPolicy "allow" e.store i action resource_type resource_id
unfolding authorize authorize_identity
authorize-allowed e i action resource_type resource_id d h allowed =
    elim (Bool-cases (check_role_permissions e i.tenant_id i.roles action)) [
      | inl has ↦
          let denied = check_if_resource "deny" e.store i action resource_type resource_id in
          let (b, answer, same) = bind-allowed denied d _ (rw has at h) in
          let clear : b ≡ false = ground arith in
          inl (
            (check_role_permissions_iff e i.tenant_id i.roles action).0 has,
            check_if_resource-none "deny" e.store i action resource_type resource_id
                (answer ∙ ap (λ (x : Bool). ok x) clear),
          )
      | inr lacks ↦
          let granted = check_if_resource "allow" e.store i action resource_type resource_id in
          let (b, answer, same) = bind-allowed granted d _ (rw lacks at h) in
          let yes : b ≡ true = ground arith in
          inr (
            check_if_resource-HasPolicy "allow" e.store i action resource_type resource_id
              (answer ∙ ap (λ (x : Bool). ok x) yes))
    ]

check_if_resource-blank :
    (effect : String) (o : Option Store) (i : Identity) (action : String)
    → check_if_resource effect o i action "" "" ≡ ok false
unfolding check_if_resource
check_if_resource-blank effect none i action = refl
check_if_resource-blank effect (some store) i action = refl

-- Without a resource the roles decide alone.
require_permission-some :
    (e : Evaluator) (permission : String) (i : Identity)
    → require_permission e permission (some i) ≡ (
        if check_role_permissions e i.tenant_id i.roles permission
        then next
        else forbidden (concat "no permission for " permission))
unfolding require_permission authorize authorize_identity
require_permission-some e permission i =
    let no_deny = check_if_resource-blank "deny" e.store i permission in
    let no_allow = check_if_resource-blank "allow" e.store i permission in
    elim (Bool-cases (check_role_permissions e i.tenant_id i.roles permission)) [
      | inl has ↦ rw (has, no_deny) refl
      | inr lacks ↦ rw (lacks, no_allow) refl
    ]

-- The middleware lets a request through to the handler just if it has an identity one of whose roles
-- has the permission in its tenant; resource policies play no part.
pub require_permission_iff :
    (e : Evaluator) (permission : String) (o : Option Identity)
    → (require_permission e permission o ≡ next)
      ↔ ((i : Identity) × (o ≡ some i) × HasPermission e i.tenant_id i.roles permission)
unfolding require_permission
require_permission_iff e permission none =
    ((λ h. absurd (ground arith)), (λ h. let (_, is_some, _) = h in absurd (ground arith)))
require_permission_iff e permission (some i) =
    let decides = require_permission-some e permission i in
    let (to, from) = check_role_permissions_iff e i.tenant_id i.roles permission in
    (
      (λ h. (i, refl, to (ground arith))),
      (λ (j, is_i, has).
          let same = some-injective _ _ is_i in
          let own : HasPermission e i.tenant_id i.roles permission =
            subst (λ (x : Identity). HasPermission e x.tenant_id x.roles permission) (sym same)
              has in
          let hit = from own in decides ∙ rw hit refl),
    )
