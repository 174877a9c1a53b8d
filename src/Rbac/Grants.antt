-- ===== src/Rbac/Grants.antt =====
-- What the loops over roles and policies decide, said without loops.
use heimdall.Base.{
  String, ◌≡◌, ◌≢◌, ◌↔◌, ◌⊎◌, refl, sym, ap, ◌∙◌, inl, inr, Bool, true, false, Option, none, some,
  List, [], ◌∷◌, arith, eq_iff, Bool-cases,
}
use heimdall.Base.Map.{get}
use heimdall.Base.Result
use mathlib.Core.Option.{some-injective}
use heimdall.Base.Result.{Result, ok, err, ok-injective}
use heimdall.Rbac.{
  ResourcePolicy, Identity, RoleMap, Store, Evaluator, Error, roles_of, permits, permissions_of,
  any_role_permits, check_role_permissions, has_effect, check_resource, check_if_resource,
}

-- Some entry of a list satisfies `P`.
abbrev pub Some {ℓ} : {A : Type ℓ} → (A → Type 0) → List A → Type 0
Some P [] = ⊥
Some P (x ∷ xs) = P x ⊎ Some P xs

-- A permission is the action or the wildcard.
abbrev pub IsGrant : String → String → Type 0
IsGrant action perm = (perm ≡ "*") ⊎ (perm ≡ action)

-- One of the roles has, in the tenant, a permission that grants the action.
abbrev pub HasPermission : Evaluator → String → List String → String → Type 0
HasPermission e tenant_id roles action =
    Some
      (λ role. Some (IsGrant action) (permissions_of (get role (roles_of (get tenant_id e.roles)))))
      roles

pub permits_iff :
    (perms : List String) (action : String)
    → (permits perms action ≡ true) ↔ Some (IsGrant action) perms
unfolding permits
permits_iff [] action = ((λ h. absurd (ground arith)), (λ h. absurd h))
permits_iff (perm ∷ perms) action =
    let (to, from) = permits_iff perms action in
    (
      (λ h. ground (arith, eq_iff perm "*", eq_iff perm action)),
      (λ h. ground (arith, eq_iff perm "*", eq_iff perm action)),
    )

pub any_role_permits_iff :
    (tenant : RoleMap) (roles : List String) (action : String)
    → (any_role_permits tenant roles action ≡ true)
      ↔ Some (λ role. Some (IsGrant action) (permissions_of (get role tenant))) roles
unfolding any_role_permits
any_role_permits_iff tenant [] action = ((λ h. absurd (ground arith)), (λ h. absurd h))
any_role_permits_iff tenant (role ∷ roles) action =
    let here = permits_iff (permissions_of (get role tenant)) action in
    let there = any_role_permits_iff tenant roles action in
    (
      (λ h. elim (Bool-cases (permits (permissions_of (get role tenant)) action)) [
        | inl own ↦ inl (here.0 own)
        | inr miss ↦ inr (there.0 (rw miss at h))
      ]),
      (λ h. elim h [
        | inl own ↦ let hit = here.1 own in rw hit refl
        | inr later ↦ let hit = there.1 later in ground arith
      ]),
    )

-- The loops over roles and permissions decide it.
pub check_role_permissions_iff :
    (e : Evaluator) (tenant_id : String) (roles : List String) (action : String)
    → (check_role_permissions e tenant_id roles action ≡ true)
      ↔ HasPermission e tenant_id roles action
unfolding check_role_permissions
check_role_permissions_iff e tenant_id roles action =
    any_role_permits_iff (roles_of (get tenant_id e.roles)) roles action

pub has_effect_iff :
    (effect : String) (policies : List ResourcePolicy)
    → (has_effect effect policies ≡ true) ↔ Some (λ p. p.effect ≡ effect) policies
unfolding has_effect
has_effect_iff effect [] = ((λ h. absurd (ground arith)), (λ h. absurd h))
has_effect_iff effect (p ∷ policies) =
    let (to, from) = has_effect_iff effect policies in
    ((λ h. ground (arith, eq_iff p.effect effect)), (λ h. ground (arith, eq_iff p.effect effect)))

-- The store was asked about a resource, and has a policy of the given effect.
abbrev pub HasPolicy : String → Option Store → Identity → String → String → String → Type 0
HasPolicy effect o i action resource_type resource_id =
    (store : Store) × (o ≡ some store)
    × (resource_type ≢ "")
    × (resource_id ≢ "")
    × ((policies : List ResourcePolicy) × (store i.user_id action resource_type resource_id
          ≡ ok policies)
        × Some (λ p. p.effect ≡ effect) policies)

pub check_resource-ok :
    (effect : String) (store : Store) (i : Identity) (action resource_type resource_id : String)
    (answer : Bool)
    → check_resource effect store i action resource_type resource_id ≡ ok answer
    → (policies : List ResourcePolicy) × (store i.user_id action resource_type resource_id
        ≡ ok policies)
      × (has_effect effect policies ≡ answer)
unfolding check_resource
check_resource-ok effect store i action resource_type resource_id answer h =
    by_reply (store i.user_id action resource_type resource_id) refl h
  where
    by_reply :
        (r : Result Error (List ResourcePolicy))
        → store i.user_id action resource_type resource_id ≡ r
        → (Result.◌>>=◌ r (λ policies. ok (has_effect effect policies))) ≡ ok answer
        → (policies : List ResourcePolicy) × (store i.user_id action resource_type resource_id
            ≡ ok policies)
          × (has_effect effect policies ≡ answer)
    by_reply (ok policies) same k = (policies, same, ground arith)
    by_reply (err e) same k = absurd (ground arith)

pub check_if_resource-HasPolicy :
    (effect : String) (o : Option Store) (i : Identity) (action resource_type resource_id : String)
    → check_if_resource effect o i action resource_type resource_id ≡ ok true
    → HasPolicy effect o i action resource_type resource_id
unfolding check_if_resource
check_if_resource-HasPolicy effect none i action resource_type resource_id h = absurd (ground arith)
check_if_resource-HasPolicy effect (some store) i action resource_type resource_id h =
    let blank_type = eq_iff resource_type "" in
    let blank_id = eq_iff resource_id "" in
    let asked : check_resource effect store i action resource_type resource_id ≡ ok true =
      ground arith in
    let (policies, reply, found) =
      check_resource-ok effect store i action resource_type resource_id true asked in
    (
      store,
      refl,
      ground arith,
      ground arith,
      (policies, reply, (has_effect_iff effect policies).0 found),
    )

pub check_if_resource-none :
    (effect : String) (o : Option Store) (i : Identity) (action resource_type resource_id : String)
    → check_if_resource effect o i action resource_type resource_id ≡ ok false
    → HasPolicy effect o i action resource_type resource_id
    → ⊥
unfolding check_if_resource
check_if_resource-none effect none i action resource_type resource_id h (store, is_store, _, _, _) =
    ground arith
check_if_resource-none effect (some s) i action resource_type resource_id h
      (store, is_store, typed, named, (policies, reply, found)) =
    let blank_type = eq_iff resource_type "" in
    let blank_id = eq_iff resource_id "" in
    let asked : check_resource effect s i action resource_type resource_id ≡ ok false =
      ground arith in
    let (policies', reply', missed) =
      check_resource-ok effect s i action resource_type resource_id false asked in
    let hit = (has_effect_iff effect policies).1 found in
    let same_store : s ≡ store = some-injective _ _ is_store in
    let same : policies' ≡ policies = ok-injective {E = Error} policies' policies (
      sym reply'
      ∙ ap (λ (x : Store). x i.user_id action resource_type resource_id) same_store
      ∙ reply) in
    let both : false ≡ true = sym missed ∙ ap (has_effect effect) same ∙ hit in
    absurd (ground arith)
