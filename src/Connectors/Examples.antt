-- ===== src/Connectors/Examples.antt =====
-- The theorems of Connectors/Governance.antt at concrete tools.
use heimdall.Base.{◌≡◌, ◌≢◌, refl, ◌⊎◌, false, true, none, [], ◌∷◌, eq_iff, arith}
use heimdall.Base.Text.{trim_space}
use heimdall.Base.Result.{ok, err}
use heimdall.Policies.{decision_allow, decision_block, evaluate, default_policy_set}
use heimdall.Connectors.{
  ConnectorTool, tool_risk_class_needed, evaluate_governance, is_governed_write, validate_tool,
  validate_tools,
}
use heimdall.Connectors.Governance.{
  evaluate_governance-allow, evaluate_governance-error, padded_write_escapes,
  validate_tool-no_error,
}

abbrev post_message : ConnectorTool
post_message = record {
  name = "post_message";
  action_type = "write";
  risk_class = "channel_sends";
  target_type = "";
  target_label_template = "";
  approval_summary_template = "";
}

abbrev padded_delete : ConnectorTool
padded_delete = record post_message {
  name = "delete_repo";
  action_type = "write ";
  risk_class = "destructive_actions";
}

abbrev unclassed : ConnectorTool
unclassed = record post_message { risk_class = "" }

tools_checked : validate_tools (post_message ∷ padded_delete ∷ []) ≡ ok tt
unfolding validate_tools trim_space
tools_checked = refl

unclassed_refused : validate_tools (post_message ∷ unclassed ∷ []) ≡ err tool_risk_class_needed
unfolding validate_tools trim_space
unclassed_refused = refl

evaluate_governance-allow_example :
    (post_message.action_type ≡ "")
    ⊎ (post_message.action_type ≡ "read")
    ⊎ ((post_message.action_type ≡ "write")
        × (post_message.risk_class ≢ "")
        × (evaluate default_policy_set [] post_message.risk_class ≡ decision_allow))
unfolding evaluate_governance evaluate
evaluate_governance-allow_example =
    evaluate_governance-allow post_message default_policy_set [] refl

unclassed_blocks :
    ((evaluate_governance unclassed [] []).0.governed ≡ true)
    × ((evaluate_governance unclassed [] []).0.decision ≡ decision_block)
unfolding evaluate_governance
unclassed_blocks = evaluate_governance-error unclassed [] [] tool_risk_class_needed refl

padded_write_escapes_example :
    (validate_tool padded_delete ≡ ok tt) × (is_governed_write padded_delete ≡ false)
unfolding trim_space
padded_write_escapes_example =
    padded_write_escapes padded_delete refl (ground (arith, eq_iff "write " "write"))
      (ground (arith, eq_iff "delete_repo" "")) (ground (arith, eq_iff "destructive_actions" ""))

validate_tool-no_error_example : (evaluate_governance post_message [] []).1 ≡ none
unfolding trim_space validate_tool
validate_tool-no_error_example = validate_tool-no_error post_message [] [] refl refl refl
