-- ===== src/Orchestrator/AgentConnectors.antt =====
-- internal/orchestrator/handler.go: the connectors that an agent is configured with, and the policies that
-- decide about their tools. A configuration that cannot be parsed has no tools; the stores of policies are
-- parameters, and the agent reads the JSON of a connector as it was written.
pub mod Writes
pub mod Enforced
mod Examples
use heimdall.Base.{
  String, Bool, true, false, ◌&&◌, Option, none, some, List, [], ◌∷◌, ◌==◌, if◌then◌else◌, map,
}
use heimdall.Base.Text.{trim_space}
use heimdall.Base.Map.{put}
use heimdall.Base.Result.{Result, ok, err}
use heimdall.Policies.{PolicySet, default_policy_set}
use heimdall.Connectors.{ConnectorTool, evaluate_governance, is_governed_write}
use heimdall.Agent.{AgentConnector, GovernedTool}

pub record ConnectorConfig : Type 0 where
  pub id : String
  pub name : String
  pub connector_type : String
  pub endpoint : String
  pub auth : String
  pub tools : Option (List ConnectorTool)

abbrev pub stored_or : PolicySet → Result String PolicySet → PolicySet
stored_or default (err e) = default
stored_or default (ok []) = default
stored_or default (ok (entry ∷ set)) = entry ∷ set

-- `loadPolicySets`: whether the two identifiers parse, and what the stores give.
unfoldable pub load_policy_sets :
    Bool → Bool → Result String PolicySet → Result String PolicySet → PolicySet × PolicySet
load_policy_sets false agent_known defaults overrides = (default_policy_set, [])
load_policy_sets true false defaults overrides = (stored_or default_policy_set defaults, [])
load_policy_sets true true defaults overrides =
    (stored_or default_policy_set defaults, stored_or [] overrides)

unfoldable pub first_non_empty : List String → String
first_non_empty [] = ""
first_non_empty (value ∷ values) =
    let rest = first_non_empty values in if trim_space value == "" then rest else trim_space value

unfoldable pub governed_entry : PolicySet → PolicySet → ConnectorTool → GovernedTool
governed_entry defaults overrides tool =
    let governance = (evaluate_governance tool defaults overrides).0 in
    record {
      action_type = tool.action_type;
      risk_class = first_non_empty (governance.risk_class ∷ tool.risk_class ∷ []);
      decision = governance.decision;
      target_type = tool.target_type;
      target_label_template = tool.target_label_template;
      approval_summary_template = tool.approval_summary_template;
    }

-- The loop over the tools of a connector, on the map `governedTools`.
unfoldable pub govern_tools :
    PolicySet
    → PolicySet
    → List ConnectorTool
    → List (String × GovernedTool)
    → List (String × GovernedTool)
govern_tools defaults overrides [] governed = governed
govern_tools defaults overrides (tool ∷ tools) governed = govern_tools defaults overrides tools (
    if is_governed_write tool
    then put tool.name (governed_entry defaults overrides tool) governed
    else governed)

abbrev pub agent_connector :
    PolicySet → PolicySet → ConnectorConfig → List ConnectorTool → AgentConnector
agent_connector defaults overrides c tools = record {
  id = c.id;
  name = c.name;
  connector_type = c.connector_type;
  endpoint = c.endpoint;
  auth = c.auth;
  tools = map (λ tool. tool.name) tools;
  governed_tools = govern_tools defaults overrides tools [];
}

abbrev pub add_connector :
    PolicySet
    → PolicySet
    → ConnectorConfig
    → Option (List ConnectorTool)
    → List AgentConnector
    → List AgentConnector
add_connector defaults overrides c none connectors = connectors
add_connector defaults overrides c (some tools) connectors =
    agent_connector defaults overrides c tools ∷ connectors

-- `buildAgentConnectors`, on the configurations that the store lists.
unfoldable pub build_agent_connectors :
    PolicySet → PolicySet → List ConnectorConfig → List AgentConnector
build_agent_connectors defaults overrides [] = []
build_agent_connectors defaults overrides (c ∷ configs) =
    add_connector defaults overrides c c.tools (build_agent_connectors defaults overrides configs)
