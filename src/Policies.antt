-- ===== src/Policies.antt =====
-- internal/policies/policies.go: which decision a risk class gets. A Go map is an association list
-- in the order in which `range` meets it, with keys that differ; `Decision` is the source's string.
pub mod Laws
mod Examples
use heimdall.Base.{
  String, Bool, true, false, ◌||◌, Option, none, some, List, [], ◌∷◌, ◌==◌, if◌then◌else◌,
}
use heimdall.Base.Result.{Result, ok, err, ◌>>=◌}

abbrev pub decision_allow : String
decision_allow = "allow"

abbrev pub decision_block : String
decision_block = "block"

abbrev pub decision_require_approval : String
decision_require_approval = "require_approval"

abbrev pub PolicySet : Type 0
PolicySet = List (String × String)

pub data Error : Type 0 where
  invalid_risk_class invalid_decision : String → Error

-- `set[riskClass]`
unfoldable pub get : PolicySet → String → Option String
get [] risk_class = none
get ((r, d) ∷ set) risk_class = if r == risk_class then some d else get set risk_class

abbrev pub default_policy_set : PolicySet
default_policy_set =
    ("external_writes", decision_require_approval)
    ∷ ("destructive_actions", decision_block)
    ∷ ("sensitive_data_access", decision_block)
    ∷ ("channel_sends", decision_allow)
    ∷ ("credentialed_third_party_actions", decision_require_approval)
    ∷ ("cross_scope_memory_access", decision_block)
    ∷ []

unfoldable pub is_decision : String → Bool
is_decision d = d == decision_allow || d == decision_block || d == decision_require_approval

-- One round of the loop of `ValidatePolicySet`.
unfoldable pub validate_entry : String → String → Result Error (Unit {0})
unfolding get is_decision
validate_entry risk_class decision = elim (get default_policy_set risk_class) [
  | none ↦ err (invalid_risk_class risk_class)
  | some _ ↦ if is_decision decision then ok tt else err (invalid_decision decision)
]

unfoldable pub validate_policy_set : PolicySet → Result Error (Unit {0})
unfolding validate_entry
validate_policy_set [] = ok tt
validate_policy_set ((r, d) ∷ set) =
    let rest = validate_policy_set set in validate_entry r d >>= λ _. rest

-- The last two lookups of `Evaluate`.
abbrev or_fallback : Option String → String
or_fallback (some decision) = decision
or_fallback none = decision_block

abbrev or_defaults : Option String → Option String → String
or_defaults (some decision) fallback = decision
or_defaults none fallback = or_fallback fallback

abbrev or_overrides : Option String → Option String → Option String → String
or_overrides (some override) defaults fallback = override
or_overrides none defaults fallback = or_defaults defaults fallback

unfoldable pub evaluate : PolicySet → PolicySet → String → String
unfolding get
evaluate defaults overrides risk_class =
    or_overrides (get overrides risk_class) (get defaults risk_class)
      (get default_policy_set risk_class)
