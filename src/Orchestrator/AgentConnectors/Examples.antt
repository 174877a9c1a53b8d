-- ===== src/Orchestrator/AgentConnectors/Examples.antt =====
-- internal/orchestrator/handler.go: a tenant with one connector, and a model that calls its tool.
use heimdall.Base.{
  ℕ, zero, suc, ◌≡◌, refl, String, true, none, some, [], ◌∷◌, ◌==◌, All, if◌then◌else◌,
}
use heimdall.Base.Result.{ok, err}
use heimdall.Policies.{default_policy_set, validate_policy_set}
use heimdall.Connectors.{ConnectorTool}
use heimdall.Agent.{Agent}
use heimdall.Agent.Mcp.{McpServer}
use heimdall.Agent.Run.{ToolCall, World, fresh}
use heimdall.Agent.Loop.{Prompt, forward_to_open_claw}
use heimdall.Orchestrator.AgentConnectors.{
  ConnectorConfig, load_policy_sets, build_agent_connectors,
}
use heimdall.Orchestrator.AgentConnectors.Enforced.{Honours, forward_to_open_claw-Honours}

abbrev post_message : ConnectorTool
post_message = record {
  name = "post_message";
  action_type = "write";
  risk_class = "channel_sends";
  target_type = "";
  target_label_template = "";
  approval_summary_template = "";
}

abbrev slack : ConnectorConfig
slack = record {
  id = "1";
  name = "slack";
  connector_type = "mcp";
  endpoint = "http://slack";
  auth = "";
  tools = some (post_message ∷ []);
}

abbrev broken : ConnectorConfig
broken = record slack { id = "2"; tools = none }

abbrev call : ToolCall
call = record { id = "1"; call_type = "function"; name = "post_message"; arguments = "{}" }

abbrev body_of : ℕ → String
body_of zero = "call"
body_of (suc n) = "done"

abbrev server : McpServer
server = record {
  scheme = λ address. some "https";
  is_json = λ text. true;
  api_key = λ auth. none;
  answer = λ n request. err "timeout";
  response = λ body. none;
}

abbrev world : World
world = record {
  post = λ n messages. ok (200, body_of n);
  choices = λ body.
      if body == "call"
      then ok (record { content = ""; tool_calls = call ∷ [] } ∷ [])
      else ok (record { content = "posted"; tool_calls = [] } ∷ []);
  mcp = server;
  params = λ arguments. some [];
}

abbrev agent : Agent
agent = record {
  config = "";
  tool_allowlist = [];
  tool_policies = none;
  canary_tokens = [];
  connectors = build_agent_connectors default_policy_set [] (broken ∷ slack ∷ []);
}

abbrev prompt : Prompt
prompt = record { role = "user"; content = "post it"; messages = [] }

-- A tenant without stored policies has the defaults.
no_policies : load_policy_sets true true (err "no rows") (ok []) ≡ (default_policy_set, [])
unfolding load_policy_sets
no_policies = refl

defaults_validated : validate_policy_set default_policy_set ≡ ok tt
unfolding validate_policy_set
defaults_validated = refl

nothing_validated : validate_policy_set [] ≡ ok tt
unfolding validate_policy_set
nothing_validated = refl

forward_to_open_claw-Honours_example :
    All
      (λ made. Honours default_policy_set [] (broken ∷ slack ∷ []) made.tool_name made.connector)
      (forward_to_open_claw world agent (ok tt) (some prompt) (fresh (λ before f. true))).calls
forward_to_open_claw-Honours_example =
    forward_to_open_claw-Honours default_policy_set [] defaults_validated nothing_validated world
      agent (broken ∷ slack ∷ []) (λ before f. true) (ok tt) (some prompt) refl
