-- ===== src/Approvals/ConnectorActions.antt =====
-- `CreateForConnectorAction`: a governed action, the request that asks for its approval, and the link
-- between them. How a UUID is written and read is google/uuid's, and is a parameter.
use Prim.Native.String.{◌++◌ as concat}
use heimdall.Base.{ℕ, String, ◌≡◌, Option, none, some, ◌==◌, if◌then◌else◌}
use heimdall.Base.Map.{get, put}
use heimdall.Base.Session.{Exec, pure, ◌>>=◌}
use heimdall.Database.{ActionStatus, Any, str, Metadata, GovernedAction, Request, Tables, Error}
use heimdall.Database.Tenant.{with_tenant_transaction}
use heimdall.Connectors.Actions
use heimdall.Connectors.Actions.{
  CreateGovernedActionParams, mark_awaiting_approval, inserted_action,
}
use heimdall.Approvals
use heimdall.Approvals.{CreateParams, inserted_request}

pub record ConnectorActionParams : Type 0 where
  pub tenant_id : ℕ
  pub agent_id : Option ℕ
  pub requested_by : Option ℕ
  pub connector_id : ℕ
  pub connector_name : String
  pub session_id : String
  pub correlation_id : String
  pub tool_name : String
  pub risk_class : String
  pub target_type : String
  pub target_label : String
  pub action_summary : String
  pub arguments : String
  pub metadata : Metadata
  pub expires_at : Option ℕ

pub record ConnectorActionResult : Type 0 where
  pub approval : Request
  pub action : GovernedAction

abbrev pub normalize_target_type : String → String
normalize_target_type value = if value == "" then "connector_action" else value

abbrev pub normalize_target_label : String → String → String → String
normalize_target_label value connector_name tool_name =
    if value == ""
    then (if connector_name == "" then tool_name else concat connector_name (concat ":" tool_name))
    else value

abbrev pub normalize_action_summary : String → String → String → String
normalize_action_summary value connector_name tool_name =
    if value == ""
    then (if connector_name == ""
        then tool_name
        else concat tool_name (concat " via " connector_name))
    else value

-- What google/uuid does that the code relies on: an identifier that was written is read back.
pub record Uuids : Type 0 where
  pub to_string : ℕ → String
  pub parse : String → Option ℕ
  pub parse-to_string : (id : ℕ) → parse (to_string id) ≡ some id

module _ (uuids : Uuids) where
  open uuids use {to_string, parse, parse-to_string}

  unfoldable pub action_params : ConnectorActionParams → CreateGovernedActionParams
  action_params p = record {
    tenant_id = p.tenant_id;
    agent_id = p.agent_id;
    connector_id = p.connector_id;
    session_id = p.session_id;
    correlation_id = p.correlation_id;
    tool_name = p.tool_name;
    risk_class = p.risk_class;
    target_type = normalize_target_type p.target_type;
    target_label = normalize_target_label p.target_label p.connector_name p.tool_name;
    action_summary = normalize_action_summary p.action_summary p.connector_name p.tool_name;
    arguments = p.arguments;
    status = some ActionStatus.pending;
  }

  unfoldable pub add_arguments : String → Metadata → Metadata
  add_arguments arguments m = if arguments == "" then m else put "arguments" (str arguments) m

  unfoldable pub action_metadata : ConnectorActionParams → GovernedAction → Metadata
  unfolding add_arguments
  action_metadata p action = add_arguments p.arguments (
      put "session_id" (str p.session_id) (
        put "correlation_id" (str p.correlation_id) (
          put "governed_action_id" (str (to_string action.id)) (
            put "tool_name" (str p.tool_name) (
              put "connector_name" (str p.connector_name)
                (put "connector_id" (str (to_string p.connector_id)) p.metadata))))))

  unfoldable pub request_params : ConnectorActionParams → GovernedAction → CreateParams
  unfolding action_metadata
  request_params p action = record {
    tenant_id = p.tenant_id;
    agent_id = p.agent_id;
    requested_by = p.requested_by;
    channel_outbox_id = none;
    risk_class = p.risk_class;
    target_type = action.target_type;
    target_label = action.target_label;
    action_summary = action.action_summary;
    metadata = action_metadata p action;
    expires_at = p.expires_at;
  }

  -- `Store.CreateForConnectorAction`
  unfoldable pub create : ConnectorActionParams → Exec Error Tables ConnectorActionResult
  unfolding action_params request_params
  create params = do
    action ← Actions.create (action_params params)
    approval ← Approvals.create (request_params params action)
    waiting ← mark_awaiting_approval action.id approval.id
    pure (record { approval = approval; action = waiting })

  -- `ConnectorActionService.CreateForConnectorAction`
  unfoldable pub create_for_connector_action :
      ℕ → ConnectorActionParams → Exec Error Tables ConnectorActionResult
  unfolding create
  create_for_connector_action tenant params = with_tenant_transaction tenant (create params)

  -- `extractActionID` of internal/proxy/connector_action_resumer.go
  unfoldable pub id_of_value : Option Any → Option ℕ
  id_of_value (some (str id)) = parse id
  id_of_value _ = none

  unfoldable pub extract_action_id : Metadata → Option ℕ
  unfolding id_of_value
  extract_action_id metadata = id_of_value (get "governed_action_id" metadata)
