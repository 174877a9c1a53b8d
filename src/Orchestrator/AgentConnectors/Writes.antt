-- ===== src/Orchestrator/AgentConnectors/Writes.antt =====
-- internal/orchestrator/handler.go: what the map of governed tools holds under a name.
use heimdall.Base.{
  ◌≡◌, refl, ap, ◌∙◌, String, Bool, true, false, ◌&&◌, Option, none, some, List, [], ◌∷◌, ◌==◌,
  arith, Bool-cases, Option-cases, inl, inr, if◌then◌else◌,
}
use heimdall.Base.Map.{get, put}
use heimdall.Policies.{PolicySet}
use heimdall.Connectors.{ConnectorTool, is_governed_write}
use heimdall.Agent.{AgentConnector, GovernedTool}
use heimdall.Orchestrator.AgentConnectors.{governed_entry, govern_tools}

abbrev or_this : Option ConnectorTool → Bool → ConnectorTool → Option ConnectorTool
or_this (some later) b tool = some later
or_this none b tool = if b then some tool else none

-- The last governed write of a connector under a name, which is the one the agent is told of.
unfoldable pub last_write : String → List ConnectorTool → Option ConnectorTool
last_write name [] = none
last_write name (tool ∷ tools) =
    or_this (last_write name tools) (is_governed_write tool && tool.name == name) tool

get-put :
    (name key : String) (v : GovernedTool) (b : Bool) (m : List (String × GovernedTool))
    → (b && key == name) ≡ false
    → get name (if b then put key v m else m) ≡ get name m
get-put name key v true m other = rw other refl
get-put name key v false m other = refl

pub first_of : (a b : Bool) → (a && b) ≡ true → a ≡ true
first_of true b h = refl
first_of false b h = h

pub some-injective :
    (a b : ConnectorTool) → ◌≡◌ {A = Option ConnectorTool} (some a) (some b) → a ≡ b
some-injective a b h = cc

pub connector-injective :
    (a b : AgentConnector) → ◌≡◌ {A = Option AgentConnector} (some a) (some b) → a ≡ b
connector-injective a b h = cc

if-none :
    (b : Bool) (tool : ConnectorTool)
    → ◌≡◌ {A = Option ConnectorTool} (if b then some tool else none) none
    → b ≡ false
if-none true tool h = ground (arith, h)
if-none false tool h = refl

pub if-some :
    (b : Bool) (tool t : ConnectorTool)
    → ◌≡◌ {A = Option ConnectorTool} (if b then some tool else none) (some t)
    → (b ≡ true) × (tool ≡ t)
if-some true tool t h = (refl, some-injective tool t h)
if-some false tool t h = ground (arith, h)

put-found :
    (name : String) (tool : ConnectorTool) (v : GovernedTool) (m : List (String × GovernedTool))
    → (is_governed_write tool && tool.name == name) ≡ true
    → get name (if is_governed_write tool then put tool.name v m else m) ≡ some v
put-found name tool v m h = elim (Bool-cases (is_governed_write tool)) [
  | inl write ↦ rw (write, rw write at h) refl
  | inr read ↦ ground (arith, rw read at h)
]

get-govern_tools-none :
    (defaults overrides : PolicySet) (name : String) (tools : List ConnectorTool)
    (m : List (String × GovernedTool))
    → last_write name tools ≡ none
    → get name (govern_tools defaults overrides tools m) ≡ get name m
unfolding govern_tools last_write
get-govern_tools-none defaults overrides name [] m h = refl
get-govern_tools-none defaults overrides name (tool ∷ tools) m h =
    elim (Option-cases (last_write name tools)) [
      | inl none_later ↦
          let miss : (is_governed_write tool && tool.name == name) ≡ false =
            if-none _ tool (rw none_later at h) in
          get-govern_tools-none defaults overrides name tools _ none_later
          ∙ get-put name tool.name _ (is_governed_write tool) m miss
      | inr (t, later) ↦ ground (arith, rw later at h)
    ]

pub get-govern_tools :
    (defaults overrides : PolicySet) (name : String) (tools : List ConnectorTool)
    (m : List (String × GovernedTool)) (t : ConnectorTool)
    → last_write name tools ≡ some t
    → get name (govern_tools defaults overrides tools m)
      ≡ some (governed_entry defaults overrides t)
unfolding govern_tools last_write
get-govern_tools defaults overrides name [] m t h = ground (arith, h)
get-govern_tools defaults overrides name (tool ∷ tools) m t h =
    elim (Option-cases (last_write name tools)) [
      | inl none_later ↦
          let (hit, same) = if-some _ tool t (rw none_later at h) in
          get-govern_tools-none defaults overrides name tools _ none_later
          ∙ put-found name tool _ m hit
          ∙ ap (λ x. some (governed_entry defaults overrides x)) same
      | inr (t', later) ↦
          let same : t' ≡ t = some-injective t' t (rw later at h) in
          get-govern_tools defaults overrides name tools _ t (later ∙ ap some same)
    ]
