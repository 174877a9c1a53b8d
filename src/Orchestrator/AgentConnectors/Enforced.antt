-- ===== src/Orchestrator/AgentConnectors/Enforced.antt =====
-- internal/orchestrator/handler.go and cmd/heimdall-agent: the agent keeps to the policies of the tenant.
use heimdall.Base.{
  Bool, ◌≡◌, ◌≢◌, refl, sym, ap, ◌∙◌, subst, String, true, false, ◌⊎◌, Option, some, List, [], ◌∷◌,
  ◌==◌, All, arith, eq_iff, Bool-cases, Option-cases, inl, inr, map,
}
use heimdall.Base.Map.{get}
use heimdall.Base.Result.{Result, ok}
use heimdall.Base.Text.{contains}
use heimdall.Policies.{PolicySet, decision_allow, evaluate, validate_policy_set}
use heimdall.Policies.Laws.{evaluate-IsDecision}
use heimdall.Connectors.{ConnectorTool, evaluate_governance, is_governed_write}
use heimdall.Agent.{AgentConnector, GovernedTool, Agent, resolve_connector}
use heimdall.Agent.Run.{AgentFrame, World, Call, fresh}
use heimdall.Agent.Loop.{UrlError, Prompt, forward_to_open_claw}
use heimdall.Agent.Permitted.{IsPermitted}
use heimdall.Agent.Safety.{forward_to_open_claw-IsPermitted}
use heimdall.Orchestrator.AgentConnectors.{
  ConnectorConfig, governed_entry, agent_connector, build_agent_connectors,
}
use heimdall.Orchestrator.AgentConnectors.Writes.{
  last_write, first_of, some-injective, if-some, connector-injective, get-govern_tools,
}

-- The policies allow each write of these tools that goes by the name.
abbrev pub AllowsWrites : PolicySet → PolicySet → String → List ConnectorTool → Type 0
AllowsWrites defaults overrides name tools =
    (t : ConnectorTool)
    → last_write name tools ≡ some t
    → (t.risk_class ≢ "") × (evaluate defaults overrides t.risk_class ≡ decision_allow)

-- The connector was made from a configuration of the tenant, whose writes by that name are allowed.
abbrev pub Honours : PolicySet → PolicySet → List ConnectorConfig → String → AgentConnector → Type 0
Honours defaults overrides [] name c = true ≡ false
Honours defaults overrides (config ∷ configs) name c =
    ((tools : List ConnectorTool) × (config.tools ≡ some tools)
      × (agent_connector defaults overrides config tools ≡ c)
      × AllowsWrites defaults overrides name tools)
    ⊎ Honours defaults overrides configs name c

last_write-is_governed_write :
    (name : String) (tools : List ConnectorTool) (t : ConnectorTool)
    → last_write name tools ≡ some t
    → is_governed_write t ≡ true
unfolding last_write
last_write-is_governed_write name [] t h = ground (arith, h)
last_write-is_governed_write name (tool ∷ tools) t h = elim (Option-cases (last_write name tools)) [
  | inl none_later ↦
      let (hit, same) = if-some _ tool t (rw none_later at h) in
      subst (λ x. is_governed_write x ≡ true) same (first_of _ _ hit)
  | inr (t', later) ↦
      last_write-is_governed_write name tools t
        (later ∙ ap some (some-injective t' t (rw later at h)))
]

abbrev Ungoverned : String → AgentConnector → Type 0
Ungoverned name c =
    (g : GovernedTool)
    → get name c.governed_tools ≡ some g
    → (g.decision ≢ "block") × (g.decision ≢ "require_approval")

module _ (defaults overrides : PolicySet) (valid : validate_policy_set defaults ≡ ok tt)
    (valid_overrides : validate_policy_set overrides ≡ ok tt) where
  -- A write whose entry neither blocks nor asks for an approval has an allowed risk class.
  entry-allowed :
      (t : ConnectorTool)
      → is_governed_write t ≡ true
      → ((governed_entry defaults overrides t).decision ≢ "block")
        × ((governed_entry defaults overrides t).decision ≢ "require_approval")
      → (t.risk_class ≢ "") × (evaluate defaults overrides t.risk_class ≡ decision_allow)
  unfolding governed_entry evaluate_governance is_governed_write
  entry-allowed t write free =
      let is : t.action_type ≡ "write" = (eq_iff t.action_type "write").0 write in
      let not_empty : (t.action_type == "") ≡ false =
        subst (λ s. (s == "") ≡ false) (sym is) refl in
      let not_read : (t.action_type == "read") ≡ false =
        subst (λ s. (s == "read") ≡ false) (sym is) refl in
      elim (Bool-cases (t.risk_class == "")) [
        | inl empty ↦
            let blocked : (governed_entry defaults overrides t).decision ≡ "block" =
              ground (arith, not_empty, not_read, write, empty) in
            absurd (free.0 blocked)
        | inr classed ↦
            let same : (governed_entry defaults overrides t).decision
                ≡ evaluate defaults overrides t.risk_class =
              ground (arith, not_empty, not_read, write, classed) in
            let full : t.risk_class ≢ "" =
              λ e. ground (arith, classed, (eq_iff t.risk_class "").1 e) in
            elim (evaluate-IsDecision defaults overrides t.risk_class valid valid_overrides) [
              | inl allows ↦ (full, allows)
              | inr (inl blocks) ↦ absurd (free.0 (same ∙ blocks))
              | inr (inr waits) ↦ absurd (free.1 (same ∙ waits))
            ]
      ]

  made-AllowsWrites :
      (config : ConnectorConfig) (name : String) (tools : List ConnectorTool)
      → Ungoverned name (agent_connector defaults overrides config tools)
      → AllowsWrites defaults overrides name tools
  made-AllowsWrites config name tools free t last =
      entry-allowed t (last_write-is_governed_write name tools t last) (
        free (governed_entry defaults overrides t)
          (get-govern_tools defaults overrides name tools [] t last))

  resolved-Honours :
      (configs : List ConnectorConfig) (name : String) (c : AgentConnector)
      → resolve_connector (build_agent_connectors defaults overrides configs) name ≡ some c
      → Ungoverned name c
      → Honours defaults overrides configs name c
  unfolding build_agent_connectors resolve_connector
  resolved-Honours [] name c found free = ground (arith, found)
  resolved-Honours (config ∷ configs) name c found free = elim (Option-cases config.tools) [
    | inl unparsed ↦ inr (resolved-Honours configs name c (rw unparsed at found) free)
    | inr (tools, parsed) ↦
        let made = agent_connector defaults overrides config tools in
        elim (Bool-cases (contains (map (λ tool. tool.name) tools) name)) [
          | inl offers ↦
              let same : made ≡ c = connector-injective made c (rw (parsed, offers) at found) in
              inl (
                tools,
                parsed,
                same,
                made-AllowsWrites config name tools (subst (Ungoverned name) (sym same) free),
              )
          | inr lacks ↦ inr (resolved-Honours configs name c (rw (parsed, lacks) at found) free)
        ]
  ]

  -- The agent of a tenant, configured with the connectors of the tenant under validated policies, calls a
  -- tool server in a run only with a connector made from a configuration of the tenant, and a governed
  -- write of that connector by the name of the tool only if the policies allow its risk class, which is
  -- not empty.
  pub forward_to_open_claw-Honours :
      (w : World) (a : Agent) (configs : List ConnectorConfig)
      (takes : List AgentFrame → AgentFrame → Bool) (url : Result UrlError (Unit {0}))
      (prompt : Option Prompt)
      → a.connectors ≡ build_agent_connectors defaults overrides configs
      → All
          (λ call. Honours defaults overrides configs call.tool_name call.connector)
          (forward_to_open_claw w a url prompt (fresh takes)).calls
  forward_to_open_claw-Honours w a configs takes url prompt configured =
      each (forward_to_open_claw w a url prompt (fresh takes)).calls
        (forward_to_open_claw-IsPermitted w a takes url prompt)
    where
      each :
          (calls : List Call)
          → All (IsPermitted w a) calls
          → All (λ call. Honours defaults overrides configs call.tool_name call.connector) calls
      each [] h = tt
      each (call ∷ calls) (p, others) = (
        resolved-Honours configs call.tool_name call.connector
            (subst (λ cs. resolve_connector cs call.tool_name ≡ some call.connector) configured
              p.offered)
            p.ungoverned,
        each calls others,
      )
