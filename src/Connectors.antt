-- ===== src/Connectors.antt =====
-- internal/connectors: the tools that a connector offers, their check when the connector is
-- registered (tools.go), and the decision of a governed write (governance.go). Tools are taken as
-- they come out of `ParseTools`, which is encoding/json's work.
pub mod Governance
pub mod Actions
mod Examples
use heimdall.Base.{
  String, Bool, true, false, ◌||◌, Option, none, some, List, [], ◌∷◌, ◌==◌, if◌then◌else◌,
}
use heimdall.Base.Text.{trim_space}
use heimdall.Base.Result.{Result, ok, err, ◌>>=◌}
use heimdall.Policies.{PolicySet, decision_allow, decision_block, evaluate}

pub record ConnectorTool : Type 0 where
  pub name : String
  pub action_type : String
  pub risk_class : String
  pub target_type : String
  pub target_label_template : String
  pub approval_summary_template : String

pub data ToolError : Type 0 where
  not_found tool_name_empty tool_action_type tool_risk_class_needed : ToolError

-- The `switch actionType` of `ValidateToolsJSON`, on the trimmed action type.
validate_action : String → String → Result ToolError (Unit {0})
validate_action action_type risk_class =
    if action_type == "" || action_type == "read"
    then ok tt
    else if action_type == "write"
    then (if trim_space risk_class == "" then err tool_risk_class_needed else ok tt)
    else err tool_action_type

unfoldable pub validate_tool : ConnectorTool → Result ToolError (Unit {0})
unfolding validate_action
validate_tool tool =
    if trim_space tool.name == ""
    then err tool_name_empty
    else validate_action (trim_space tool.action_type) tool.risk_class

unfoldable pub validate_tools : List ConnectorTool → Result ToolError (Unit {0})
unfolding validate_tool
validate_tools [] = ok tt
validate_tools (tool ∷ tools) = let rest = validate_tools tools in validate_tool tool >>= λ _. rest

-- The loop of `ResolveToolDefinition`.
unfoldable pub resolve_tool_definition :
    List ConnectorTool → String → Result ToolError ConnectorTool
resolve_tool_definition [] tool_name = err not_found
resolve_tool_definition (tool ∷ tools) tool_name =
    if tool.name == tool_name then ok tool else resolve_tool_definition tools tool_name

pub record GovernanceResult : Type 0 where
  pub governed : Bool
  pub decision : String
  pub risk_class : String
  pub tool : ConnectorTool

-- Go returns the result beside the error.
unfoldable pub evaluate_governance :
    ConnectorTool → PolicySet → PolicySet → GovernanceResult × Option ToolError
evaluate_governance tool defaults overrides =
    let result : GovernanceResult = record {
      governed = false;
      decision = decision_allow;
      risk_class = "";
      tool = tool;
    } in
    if tool.action_type == "" || tool.action_type == "read"
    then (result, none)
    else if tool.action_type == "write"
    then (if tool.risk_class == ""
        then (
          record result { governed = true; decision = decision_block },
          some tool_risk_class_needed,
        )
        else (
          record result {
            governed = true;
            risk_class = tool.risk_class;
            decision = evaluate defaults overrides tool.risk_class;
          },
          none,
        ))
    else (record result { governed = true; decision = decision_block }, some tool_action_type)

unfoldable pub is_governed_write : ConnectorTool → Bool
is_governed_write tool = tool.action_type == "write"
