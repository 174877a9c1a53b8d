-- ===== src/Agent.antt =====
-- cmd/heimdall-agent: what the agent in a VM holds, which tool calls it lets through (validator.go), where
-- it looks for a leak (canary.go) and which connector a tool belongs to (mcp.go, openclaw.go).
pub mod Mcp
pub mod Run
pub mod Loop
pub mod Permitted
pub mod Respects
pub mod Safety
mod Examples
use heimdall.Base.{
  ℕ, suc, String, Bool, true, false, ◌&&◌, ◌||◌, not, Option, none, some, List, [], ◌∷◌, ◌==◌,
  if◌then◌else◌,
}
use heimdall.Base.Text.{trim_space, contains}
use heimdall.Base.Map.{get}
use heimdall.Base.Result.{Result, ok, err}
use text.Mathlib.Text.{starts_with}

pub record ToolPolicy : Type 0 where
  pub allowed_params : List String
  pub denied_params : List String

pub record GovernedTool : Type 0 where
  pub action_type : String
  pub risk_class : String
  pub decision : String
  pub target_type : String
  pub target_label_template : String
  pub approval_summary_template : String

pub record AgentConnector : Type 0 where
  pub id : String
  pub name : String
  pub connector_type : String
  pub endpoint : String
  pub auth : String
  pub tools : List String
  pub governed_tools : List (String × GovernedTool)

-- What `handleConfigUpdate` sets; the policies are the nil map where none are sent.
pub record Agent : Type 0 where
  pub config : String
  pub tool_allowlist : List String
  pub tool_policies : Option (List (String × ToolPolicy))
  pub canary_tokens : List String
  pub connectors : List AgentConnector

pub data Refusal : Type 0 where
  not_in_allow_list param_denied param_not_allowed : String → Refusal
  invalid_arguments : Refusal

abbrev pub is_empty {ℓ} : {A : Type ℓ} → List A → Bool
is_empty [] = true
is_empty (x ∷ xs) = false

-- The loop over the names of the parameters, in the order of Go's iteration.
unfoldable pub check_params : ToolPolicy → List String → Result Refusal (Unit {0})
check_params policy [] = ok tt
check_params policy (name ∷ names) =
    let rest = check_params policy names in
    if contains policy.denied_params name
    then err (param_denied name)
    else if not (is_empty policy.allowed_params) && not (contains policy.allowed_params name)
    then err (param_not_allowed name)
    else rest

abbrev pub check_parsed : ToolPolicy → Option (List String) → Result Refusal (Unit {0})
check_parsed policy none = err invalid_arguments
check_parsed policy (some names) = check_params policy names

abbrev pub check_policy :
    (String → Option (List String)) → String → Option ToolPolicy → Result Refusal (Unit {0})
check_policy params arguments none = ok tt
check_policy params arguments (some policy) = check_parsed policy (params arguments)

abbrev pub policy_of : String → Option (List (String × ToolPolicy)) → Option ToolPolicy
policy_of tool none = none
policy_of tool (some policies) = get tool policies

-- `validateToolCall`; `params` gives the names in a JSON object of arguments.
unfoldable pub validate_tool_call :
    (String → Option (List String)) → Agent → String → String → Result Refusal (Unit {0})
validate_tool_call params a tool_name arguments =
    if not (is_empty a.tool_allowlist) && not (contains a.tool_allowlist tool_name)
    then err (not_in_allow_list tool_name)
    else check_policy params arguments (policy_of tool_name a.tool_policies)

-- `strings.Contains`
unfoldable pub has_substring : String → String → Bool
has_substring String.[] token = token == ""
has_substring (String.◌∷◌ c s) token = starts_with (String.◌∷◌ c s) token || has_substring s token

unfoldable pub first_token : String → List String → Option String
first_token content [] = none
first_token content (token ∷ tokens) =
    if has_substring content token then some token else first_token content tokens

-- `checkCanary`: the first token that the text contains.
unfoldable pub check_canary : Agent → String → Option String
check_canary a content = first_token content a.canary_tokens

unfoldable pub resolve_connector : List AgentConnector → String → Option AgentConnector
resolve_connector [] tool_name = none
resolve_connector (c ∷ connectors) tool_name =
    if contains c.tools tool_name then some c else resolve_connector connectors tool_name

abbrev pub with_tool : String → AgentConnector → Option AgentConnector
with_tool tool_name c = if contains c.tools tool_name then some c else none

-- The loop over the connectors with an ID; `all` are those to fall back on.
unfoldable pub resolve_by_id :
    List AgentConnector → String → String → List AgentConnector → Option AgentConnector
resolve_by_id all connector_id tool_name [] = resolve_connector all tool_name
resolve_by_id all connector_id tool_name (c ∷ connectors) =
    if c.id == connector_id
    then with_tool tool_name c
    else resolve_by_id all connector_id tool_name connectors

unfoldable pub resolve_connector_for_action :
    List AgentConnector → String → String → Option AgentConnector
resolve_connector_for_action connectors connector_id tool_name =
    let id = trim_space connector_id in
    if id == ""
    then resolve_connector connectors tool_name
    else resolve_by_id connectors id tool_name connectors
