-- ===== src/Policies/Examples.antt =====
-- The theorems of Policies/Laws.antt at concrete policy sets.
use heimdall.Base.{String, ◌≡◌, refl, ◌⊎◌, none, some, [], ◌∷◌}
use heimdall.Base.Result.{err}
use heimdall.Policies.{
  PolicySet, invalid_risk_class, invalid_decision, get, decision_allow, decision_block,
  validate_policy_set, evaluate,
}
use heimdall.Policies.Laws.{IsDecision, evaluate-IsDecision, evaluate-allow}

abbrev tenant_set : PolicySet
tenant_set = ("destructive_actions", "require_approval") ∷ ("channel_sends", "block") ∷ []

abbrev agent_set : PolicySet
agent_set = ("external_writes", "allow") ∷ []

unknown_class : validate_policy_set (("writes", "allow") ∷ []) ≡ err (invalid_risk_class "writes")
unfolding validate_policy_set
unknown_class = refl

unknown_decision :
    validate_policy_set (("channel_sends", "deny") ∷ []) ≡ err (invalid_decision "deny")
unfolding validate_policy_set
unknown_decision = refl

precedence : evaluate tenant_set agent_set "channel_sends" ≡ decision_block
unfolding evaluate
precedence = refl

evaluate-IsDecision_example : IsDecision (evaluate tenant_set agent_set "no_such_class")
unfolding validate_policy_set
evaluate-IsDecision_example = evaluate-IsDecision tenant_set agent_set "no_such_class" refl refl

evaluate-allow_example :
    (get agent_set "external_writes" ≡ some decision_allow)
    ⊎ ((get agent_set "external_writes" ≡ none)
        × (get tenant_set "external_writes" ≡ some decision_allow))
    ⊎ ((get agent_set "external_writes" ≡ none)
        × (get tenant_set "external_writes" ≡ none)
        × ◌≡◌ {A = String} "external_writes" "channel_sends")
unfolding evaluate
evaluate-allow_example = evaluate-allow tenant_set agent_set "external_writes" refl
