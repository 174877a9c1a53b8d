-- ===== src/Connectors/Governance.antt =====
-- What `EvaluateGovernance` guarantees, and where it differs from the check at registration.
use heimdall.Base.{◌≡◌, ◌≢◌, ◌⊎◌, true, false, none, some, arith, eq_iff}
use heimdall.Base.Text.{trim_space}
use heimdall.Base.Result.{ok}
use heimdall.Policies.{PolicySet, decision_allow, decision_block, evaluate}
use heimdall.Connectors.{
  ConnectorTool, ToolError, evaluate_governance, is_governed_write, validate_tool,
}

-- The call is let through only for a tool that reads, or for a write whose risk class the policies
-- allow; a write is never let through without a risk class.
pub evaluate_governance-allow :
    (tool : ConnectorTool) (defaults overrides : PolicySet)
    → (evaluate_governance tool defaults overrides).0.decision ≡ decision_allow
    → (tool.action_type ≡ "")
      ⊎ (tool.action_type ≡ "read")
      ⊎ ((tool.action_type ≡ "write")
          × (tool.risk_class ≢ "")
          × (evaluate defaults overrides tool.risk_class ≡ decision_allow))
unfolding evaluate_governance
evaluate_governance-allow tool defaults overrides h = ground (
  arith,
  eq_iff tool.action_type "",
  eq_iff tool.action_type "read",
  eq_iff tool.action_type "write",
  eq_iff tool.risk_class "",
  eq_iff decision_block decision_allow,
)

-- An error comes with a governed call and the decision to block it.
pub evaluate_governance-error :
    (tool : ConnectorTool) (defaults overrides : PolicySet) (e : ToolError)
    → (evaluate_governance tool defaults overrides).1 ≡ some e
    → ((evaluate_governance tool defaults overrides).0.governed ≡ true)
      × ((evaluate_governance tool defaults overrides).0.decision ≡ decision_block)
unfolding evaluate_governance
evaluate_governance-error tool defaults overrides e h = ground arith

-- Registration trims the action type and `IsGovernedWrite` does not: a tool with a name, a risk class
-- and the action type write with white space round it is accepted, and is not taken for a write.
pub padded_write_escapes :
    (tool : ConnectorTool)
    → trim_space tool.action_type ≡ "write"
    → tool.action_type ≢ "write"
    → trim_space tool.name ≢ ""
    → trim_space tool.risk_class ≢ ""
    → (validate_tool tool ≡ ok tt) × (is_governed_write tool ≡ false)
unfolding validate_tool is_governed_write
padded_write_escapes tool padded ne named classed = (
  rw padded
      (ground (arith, eq_iff (trim_space tool.name) "", eq_iff (trim_space tool.risk_class) "")),
  ground (arith, eq_iff tool.action_type "write"),
)

-- For an action type and a risk class without outer white space registration and governance agree: what
-- `ValidateToolsJSON` accepts gives no governance error.
pub validate_tool-no_error :
    (tool : ConnectorTool) (defaults overrides : PolicySet)
    → trim_space tool.action_type ≡ tool.action_type
    → trim_space tool.risk_class ≡ tool.risk_class
    → validate_tool tool ≡ ok tt
    → (evaluate_governance tool defaults overrides).1 ≡ none
unfolding validate_tool evaluate_governance
validate_tool-no_error tool defaults overrides ha hr h = ground arith
