-- ===== src/Database.antt =====
-- The tables of migrations/ that the stores below share, as the Go structs show their rows:
-- `GovernedAction` of internal/connectors/actions.go, `Request` of internal/approvals/approvals.go
-- and `ChannelOutbox` of internal/channels/channels.go. A UUID and a time are numbers; `uuid.Nil` is 0.
-- The status columns are enumerations, as their CHECK constraints say.
pub mod Tenant
use heimdall.Base.{ℕ, String, Option, List}

pub data ActionStatus : Type 0 where
  pending awaiting_approval approved denied executed failed : ActionStatus

pub data ApprovalStatus : Type 0 where
  pending approved denied expired cancelled : ApprovalStatus

pub data OutboxStatus : Type 0 where
  pending sending pending_approval sent dead : OutboxStatus

-- A value of `map[string]any`: a string, or another JSON value by its text.
pub data Any : Type 0 where
  str : String → Any
  json : String → Any

abbrev pub Metadata : Type 0
Metadata = List (String × Any)

pub record GovernedAction : Type 0 where
  pub id : ℕ
  pub tenant_id : ℕ
  pub agent_id : Option ℕ
  pub approval_request_id : Option ℕ
  pub connector_id : ℕ
  pub session_id : String
  pub correlation_id : String
  pub tool_name : String
  pub risk_class : String
  pub target_type : String
  pub target_label : String
  pub action_summary : String
  pub arguments : String
  pub status : ActionStatus
  pub created_at : ℕ
  pub updated_at : ℕ

pub record Request : Type 0 where
  pub id : ℕ
  pub tenant_id : ℕ
  pub agent_id : Option ℕ
  pub requested_by : Option ℕ
  pub reviewed_by : Option ℕ
  pub channel_outbox_id : Option ℕ
  pub risk_class : String
  pub status : ApprovalStatus
  pub target_type : String
  pub target_label : String
  pub action_summary : String
  pub metadata : Metadata
  pub created_at : ℕ
  pub reviewed_at : Option ℕ
  pub expires_at : Option ℕ

pub record ChannelOutbox : Type 0 where
  pub id : ℕ
  pub tenant_id : ℕ
  pub channel_message_id : ℕ
  pub provider : String
  pub recipient_id : String
  pub payload : String
  pub status : OutboxStatus
  pub attempt_count : ℕ
  pub max_attempts : ℕ
  pub next_attempt_at : ℕ
  pub last_error : Option String
  pub locked_at : Option ℕ
  pub sent_at : Option ℕ
  pub created_at : ℕ
  pub updated_at : ℕ

-- `tenant` is `current_setting('app.current_tenant_id')`, and `next_id` what `gen_random_uuid()`
-- gives next: a number that no row has yet. `messages` holds the id and the tenant of each row of
-- `channel_messages`.
pub record Tables : Type 0 where
  pub tenant : ℕ
  pub next_id : ℕ
  pub messages : List (ℕ × ℕ)
  pub actions : List GovernedAction
  pub requests : List Request
  pub outbox : List ChannelOutbox

-- The errors that the stores return.
pub data Error : Type 0 where
  statement_failed : Error
  action_not_found : Error
  action_invalid_transition : Error
  approval_not_found : Error
  approval_not_pending : Error
  approval_self_review : Error
  outbox_not_found : Error
  next_attempt_required : Error
  scan_failed : Error
  no_review_sink : Error
  review_failed : Error
  message_not_found : Error
  message_id_invalid : Error
  platform_empty : Error
  identity_empty : Error
  payload_required : Error
  payload_invalid : Error
