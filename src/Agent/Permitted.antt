-- ===== src/Agent/Permitted.antt =====
-- cmd/heimdall-agent/validator.go, mcp.go: what a tool call that is let through satisfies.
use heimdall.Base.{
  ◌≡◌, ◌≢◌, ◌⊎◌, refl, String, true, false, Option, none, some, List, [], ◌∷◌, ◌==◌, arith,
  Bool-cases, inl, inr, All, eq_iff, subst, ◌||◌,
}
use heimdall.Base.Text.{contains}
use heimdall.Base.Map.{get}
use heimdall.Base.Result.{Result, ok, err}
use heimdall.Agent.{
  ToolPolicy, GovernedTool, Agent, Refusal, is_empty, check_params, check_parsed, check_policy,
  policy_of, validate_tool_call, resolve_connector,
}
use heimdall.Agent.Run.{World, Call, ToolCall, holds_back, validate_all, refuse}

-- A parameter that a policy lets through.
abbrev pub Passes : ToolPolicy → String → Type 0
Passes policy name =
    (contains policy.denied_params name ≡ false)
    × ((is_empty policy.allowed_params ≡ true) ⊎ (contains policy.allowed_params name ≡ true))

-- A call to a tool server that the configuration of the agent lets through: the tool is on the list of
-- allowed tools, if there is one; where a policy stands for the tool the arguments are an object whose
-- parameters all pass; the connector is the first that offers the tool; and its governance neither blocks
-- the tool nor asks for an approval.
pub record IsPermitted (w : World) (a : Agent) (call : Call) : Type 0 where
  pub listed :
      (is_empty a.tool_allowlist ≡ true) ⊎ (contains a.tool_allowlist call.tool_name ≡ true)
  pub parameters :
      (policy : ToolPolicy)
      → policy_of call.tool_name a.tool_policies ≡ some policy
      → (names : List String) × (w.params call.arguments ≡ some names) × All (Passes policy) names
  pub offered : resolve_connector a.connectors call.tool_name ≡ some call.connector
  pub ungoverned :
      (g : GovernedTool)
      → get call.tool_name call.connector.governed_tools ≡ some g
      → (g.decision ≢ "block") × (g.decision ≢ "require_approval")

check_params-ok :
    (policy : ToolPolicy) (names : List String)
    → check_params policy names ≡ ok tt
    → All (Passes policy) names
unfolding check_params
check_params-ok policy [] h = tt
check_params-ok policy (name ∷ names) h = elim (Bool-cases (contains policy.denied_params name)) [
  | inl denied ↦ ground (arith, rw denied at h)
  | inr fine ↦ elim (Bool-cases (is_empty policy.allowed_params)) [
    | inl free ↦ ((fine, inl free), check_params-ok policy names (rw (fine, free) at h))
    | inr listed ↦ elim (Bool-cases (contains policy.allowed_params name)) [
      | inl among ↦
          ((fine, inr among), check_params-ok policy names (rw (fine, listed, among) at h))
      | inr missing ↦ ground (arith, rw (fine, listed, missing) at h)
    ]
  ]
]

check_parsed-ok :
    (policy : ToolPolicy) (o : Option (List String))
    → check_parsed policy o ≡ ok tt
    → (names : List String) × (o ≡ some names) × All (Passes policy) names
check_parsed-ok policy none h = ground (arith, h)
check_parsed-ok policy (some names) h = (names, refl, check_params-ok policy names h)

some_policy-injective : (p q : ToolPolicy) → ◌≡◌ {A = Option ToolPolicy} (some p) (some q) → p ≡ q
some_policy-injective p q h = cc

some_tool-injective : (f g : GovernedTool) → ◌≡◌ {A = Option GovernedTool} (some f) (some g) → f ≡ g
some_tool-injective f g h = cc

check_policy-ok :
    (w : World) (arguments : String) (o : Option ToolPolicy) (policy : ToolPolicy)
    → check_policy w.params arguments o ≡ ok tt
    → o ≡ some policy
    → (names : List String) × (w.params arguments ≡ some names) × All (Passes policy) names
check_policy-ok w arguments none policy h has = absurd (ground (arith, has))
check_policy-ok w arguments (some p) policy h has = check_parsed-ok policy (w.params arguments) (
    subst (λ q. check_parsed q (w.params arguments) ≡ ok tt) (some_policy-injective p policy has) h)

pub validate_tool_call-ok :
    (w : World) (a : Agent) (tool arguments : String)
    → validate_tool_call w.params a tool arguments ≡ ok tt
    → ((is_empty a.tool_allowlist ≡ true) ⊎ (contains a.tool_allowlist tool ≡ true))
      × (check_policy w.params arguments (policy_of tool a.tool_policies) ≡ ok tt)
unfolding validate_tool_call
validate_tool_call-ok w a tool arguments h = elim (Bool-cases (is_empty a.tool_allowlist)) [
  | inl free ↦ (inl free, rw free at h)
  | inr listed ↦ elim (Bool-cases (contains a.tool_allowlist tool)) [
    | inl among ↦ (inr among, rw (listed, among) at h)
    | inr missing ↦ ground (arith, rw (listed, missing) at h)
  ]
]

not_held :
    (decision : String)
    → (decision == "block" || decision == "require_approval") ≡ false
    → (decision ≢ "block") × (decision ≢ "require_approval")
not_held decision h = (
  λ e. ground (arith, h, (eq_iff decision "block").1 e),
  λ e. ground (arith, h, (eq_iff decision "require_approval").1 e),
)

pub holds_back-false :
    (o : Option GovernedTool) (g : GovernedTool)
    → holds_back o ≡ false
    → o ≡ some g
    → (g.decision ≢ "block") × (g.decision ≢ "require_approval")
holds_back-false none g h has = ground (arith, has)
holds_back-false (some f) g h has =
    subst (λ t. (t.decision ≢ "block") × (t.decision ≢ "require_approval"))
      (some_tool-injective f g has) (not_held f.decision h)

-- Calls that were validated and govern nothing are permitted.
pub IsPermitted-made :
    (w : World) (a : Agent) (call : Call)
    → validate_tool_call w.params a call.tool_name call.arguments ≡ ok tt
    → resolve_connector a.connectors call.tool_name ≡ some call.connector
    → holds_back (get call.tool_name call.connector.governed_tools) ≡ false
    → IsPermitted w a call
IsPermitted-made w a call valid found free =
    let parts = validate_tool_call-ok w a call.tool_name call.arguments valid in
    record {
      listed = parts.0;
      parameters = λ policy has. check_policy-ok w call.arguments _ policy parts.1 has;
      offered = found;
      ungoverned = λ g has. holds_back-false _ g free has;
    }

refuse-ok :
    (name : String) (r : Result Refusal (Unit {0})) (rest : Result String (Unit {0}))
    → refuse name r rest ≡ ok tt
    → (r ≡ ok tt) × (rest ≡ ok tt)
refuse-ok name (ok u) rest h = (refl, h)
refuse-ok name (err e) rest h = ground (arith, h)

-- The batch that passes is valid call by call.
pub validate_all-ok :
    (w : World) (a : Agent) (calls : List ToolCall)
    → validate_all w a calls ≡ ok tt
    → All (λ tc. validate_tool_call w.params a tc.name tc.arguments ≡ ok tt) calls
unfolding validate_all
validate_all-ok w a [] h = tt
validate_all-ok w a (tc ∷ calls) h =
    let parts =
      refuse-ok tc.name (validate_tool_call w.params a tc.name tc.arguments)
        (validate_all w a calls) h in
    (parts.0, validate_all-ok w a calls parts.1)
