-- ===== src/Policies/Laws.antt =====
-- What `ValidatePolicySet` accepts, and what `Evaluate` answers over sets that it accepted.
use heimdall.Base.{
  String, ◌≡◌, refl, subst, ◌⊎◌, inl, inr, true, none, some, [], ◌∷◌, All, arith, eq_iff, ◌==◌,
  Bool-cases, Option-cases,
}
use heimdall.Base.Result.{ok}
use heimdall.Policies.{
  PolicySet, get, default_policy_set, decision_allow, decision_block, decision_require_approval,
  is_decision, validate_entry, validate_policy_set, evaluate,
}

-- The decisions that the rest of the program knows.
abbrev pub IsDecision : String → Type 0
IsDecision d = (d ≡ decision_allow) ⊎ (d ≡ decision_block) ⊎ (d ≡ decision_require_approval)

-- The risk classes of internal/activity/activity.go, which are the keys of the built-in set.
abbrev pub IsRiskClass : String → Type 0
IsRiskClass r = (d : String) × (get default_policy_set r ≡ some d)

abbrev pub IsEntry : String × String → Type 0
IsEntry e = IsRiskClass e.0 × IsDecision e.1

is_decision-IsDecision : (d : String) → is_decision d ≡ true → IsDecision d
unfolding is_decision
is_decision-IsDecision d h =
    ground
      (arith, eq_iff d decision_allow, eq_iff d decision_block, eq_iff d decision_require_approval)

IsDecision-is_decision : (d : String) → IsDecision d → is_decision d ≡ true
unfolding is_decision
IsDecision-is_decision d h =
    ground
      (arith, eq_iff d decision_allow, eq_iff d decision_block, eq_iff d decision_require_approval)

validate_entry-ok : (r d : String) → validate_entry r d ≡ ok tt → IsEntry (r, d)
unfolding validate_entry
validate_entry-ok r d h = elim (Option-cases (get default_policy_set r)) [
  | inl missing ↦ absurd (ground arith)
  | inr (b, found) ↦ ((b, found), is_decision-IsDecision d (ground arith))
]

ok-validate_entry : (r d : String) → IsEntry (r, d) → validate_entry r d ≡ ok tt
unfolding validate_entry
ok-validate_entry r d e = ground (arith, e.0.1, IsDecision-is_decision d e.1)

-- A set is accepted only if each of its entries has a known class and a known decision.
pub validate_policy_set-entries :
    (set : PolicySet) → validate_policy_set set ≡ ok tt → All IsEntry set
unfolding validate_policy_set
validate_policy_set-entries [] h = tt
validate_policy_set-entries ((r, d) ∷ set) h =
    (validate_entry-ok r d (ground arith), validate_policy_set-entries set (ground arith))

pub entries-validate_policy_set :
    (set : PolicySet) → All IsEntry set → validate_policy_set set ≡ ok tt
unfolding validate_policy_set
entries-validate_policy_set [] h = refl
entries-validate_policy_set ((r, d) ∷ set) h =
    ground (arith, ok-validate_entry r d h.0, entries-validate_policy_set set h.1)

get-IsDecision :
    (set : PolicySet) (r d : String) → All IsEntry set → get set r ≡ some d → IsDecision d
unfolding get
get-IsDecision [] r d h e = absurd (ground arith)
get-IsDecision ((q, c) ∷ set) r d h e = elim (Bool-cases (q == r)) [
  | inl hit ↦ let same : c ≡ d = ground arith in subst IsDecision same h.0.1
  | inr miss ↦ get-IsDecision set r d h.1 (ground arith)
]

default_policy_set-entries : All IsEntry default_policy_set
unfolding validate_policy_set
default_policy_set-entries = validate_policy_set-entries default_policy_set refl

-- Over sets that `ValidatePolicySet` accepted, `Evaluate` answers one of the three decisions, for
-- every risk class, known or not.
pub evaluate-IsDecision :
    (defaults overrides : PolicySet) (r : String)
    → validate_policy_set defaults ≡ ok tt
    → validate_policy_set overrides ≡ ok tt
    → IsDecision (evaluate defaults overrides r)
unfolding evaluate
evaluate-IsDecision defaults overrides r hd ho = elim (Option-cases (get overrides r)) [
  | inr (d, e) ↦
      rw (e, evaluate) (get-IsDecision overrides r d (validate_policy_set-entries overrides ho) e)
  | inl eo ↦ elim (Option-cases (get defaults r)) [
    | inr (d, e) ↦
        rw (eo, e, evaluate)
          (get-IsDecision defaults r d (validate_policy_set-entries defaults hd) e)
    | inl ed ↦ elim (Option-cases (get default_policy_set r)) [
      | inr (d, e) ↦
          rw (eo, ed, e, evaluate)
            (get-IsDecision default_policy_set r d default_policy_set-entries e)
      | inl none_left ↦ rw (eo, ed, none_left, evaluate) (inr (inl refl))
    ]
  ]
]

default-allow : (r : String) → get default_policy_set r ≡ some decision_allow → r ≡ "channel_sends"
unfolding get
default-allow r h = ground (
  arith,
  eq_iff "external_writes" r,
  eq_iff "destructive_actions" r,
  eq_iff "sensitive_data_access" r,
  eq_iff "channel_sends" r,
  eq_iff "credentialed_third_party_actions" r,
  eq_iff "cross_scope_memory_access" r,
  eq_iff decision_block decision_allow,
  eq_iff decision_require_approval decision_allow,
)

-- A risk class is allowed only by its override, by the default of its tenant where there is no
-- override, or, where neither set has it, as "channel_sends".
pub evaluate-allow :
    (defaults overrides : PolicySet) (r : String)
    → evaluate defaults overrides r ≡ decision_allow
    → (get overrides r ≡ some decision_allow)
      ⊎ ((get overrides r ≡ none) × (get defaults r ≡ some decision_allow))
      ⊎ ((get overrides r ≡ none) × (get defaults r ≡ none) × (r ≡ "channel_sends"))
unfolding evaluate
evaluate-allow defaults overrides r h =
    ground (arith, default-allow r, eq_iff decision_block decision_allow)

-- An agent's override decides alone: with it, the tenant's defaults do not matter.
evaluate-override :
    (defaults other overrides : PolicySet) (r d : String)
    → get overrides r ≡ some d
    → evaluate defaults overrides r ≡ evaluate other overrides r
unfolding evaluate
evaluate-override defaults other overrides r d h = ground arith
