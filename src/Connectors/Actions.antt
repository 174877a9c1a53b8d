-- ===== src/Connectors/Actions.antt =====
-- internal/connectors/actions.go: the store of governed connector actions.
pub mod Transitions
pub mod History
mod Examples
use heimdall.Base.{
  ℕ, suc, ◌+◌, String, Bool, true, false, ◌&&◌, ◌||◌, Option, none, some, List, [], ◌∷◌, ◌++◌, eqb,
  ◌==◌, if◌then◌else◌,
}
use heimdall.Base.Result.{ok, err}
use heimdall.Base.Session.{Session, Exec, pure, raise, statement, ◌>>=◌}
use heimdall.Base.Table.{update_where, first_where, returning}
use heimdall.Database.{
  ActionStatus, GovernedAction, Tables, Error, statement_failed, action_not_found,
  action_invalid_transition,
}

pub record CreateGovernedActionParams : Type 0 where
  pub tenant_id : ℕ
  pub agent_id : Option ℕ
  pub connector_id : ℕ
  pub session_id : String
  pub correlation_id : String
  pub tool_name : String
  pub risk_class : String
  pub target_type : String
  pub target_label : String
  pub action_summary : String
  pub arguments : String
  -- `none` is the empty string.
  pub status : Option ActionStatus

abbrev pub or_pending : Option ActionStatus → ActionStatus
or_pending none = ActionStatus.pending
or_pending (some status) = status

abbrev pub inserted_action : CreateGovernedActionParams → ℕ → ℕ → GovernedAction
inserted_action p id now = record {
  id = id;
  tenant_id = p.tenant_id;
  agent_id = p.agent_id;
  approval_request_id = none;
  connector_id = p.connector_id;
  session_id = p.session_id;
  correlation_id = p.correlation_id;
  tool_name = p.tool_name;
  risk_class = p.risk_class;
  target_type = p.target_type;
  target_label = p.target_label;
  action_summary = p.action_summary;
  arguments = if p.arguments == "" then "{}" else p.arguments;
  status = or_pending p.status;
  created_at = now;
  updated_at = now;
}

unfoldable pub create : CreateGovernedActionParams → Exec Error Tables GovernedAction
create params = statement statement_failed λ now t.
    let action = inserted_action params t.next_id now in
    (action, record t { next_id = suc t.next_id; actions = t.actions ++ action ∷ [] })

-- `WHERE id = $1 AND tenant_id = current_setting(…)`
abbrev pub is_row : ℕ → ℕ → GovernedAction → Bool
is_row tenant id a = eqb a.id id && eqb a.tenant_id tenant

abbrev pub or_not_found : Option GovernedAction → Exec Error Tables GovernedAction
or_not_found none = raise action_not_found
or_not_found (some a) = pure a

unfoldable pub get_by_id : ℕ → Exec Error Tables GovernedAction
get_by_id id = do
  found ← statement statement_failed (λ now t. (first_where (is_row t.tenant id) t.actions, t))
  or_not_found found

-- `COALESCE($3, approval_request_id)`, where $3 is NULL for `uuid.Nil`
abbrev or_existing : ℕ → Option ℕ → Option ℕ
or_existing approval_id existing = if eqb approval_id 0 then existing else some approval_id

abbrev pub set_status : ℕ → ActionStatus → ℕ → GovernedAction → GovernedAction
set_status approval_id next now a = record a {
  status = next;
  approval_request_id = or_existing approval_id a.approval_request_id;
  updated_at = now;
}

abbrev pub can_update : ℕ → ℕ → (ActionStatus → Bool) → GovernedAction → Bool
can_update tenant id allowed a = is_row tenant id a && allowed a.status

-- What follows the UPDATE: where it hit no row, `GetByID` tells a missing row from a bad status.
abbrev after_update : ℕ → Option GovernedAction → Exec Error Tables GovernedAction
after_update id (some a) = pure a
after_update id none = do existing ← get_by_id id; raise action_invalid_transition

unfoldable pub update_status :
    ℕ → ℕ → ActionStatus → (ActionStatus → Bool) → Exec Error Tables GovernedAction
unfolding get_by_id
update_status id approval_id next allowed = do
  updated ← statement statement_failed λ now t. (
    returning (can_update t.tenant id allowed) (set_status approval_id next now) t.actions,
    record t {
      actions =
          update_where (can_update t.tenant id allowed) (set_status approval_id next now) t.actions;
    },
  )
  after_update id updated

abbrev pub is_pending : ActionStatus → Bool
is_pending ActionStatus.pending = true
is_pending _ = false

abbrev pub is_awaiting : ActionStatus → Bool
is_awaiting ActionStatus.awaiting_approval = true
is_awaiting _ = false

abbrev pub is_approved : ActionStatus → Bool
is_approved ActionStatus.approved = true
is_approved _ = false

unfoldable pub mark_awaiting_approval : ℕ → ℕ → Exec Error Tables GovernedAction
mark_awaiting_approval id approval_id =
    update_status id approval_id ActionStatus.awaiting_approval is_pending

unfoldable pub mark_approved : ℕ → Exec Error Tables GovernedAction
mark_approved id = update_status id 0 ActionStatus.approved (λ s. is_awaiting s || is_pending s)

unfoldable pub mark_denied : ℕ → Exec Error Tables GovernedAction
mark_denied id = update_status id 0 ActionStatus.denied (λ s. is_awaiting s || is_pending s)

unfoldable pub mark_executed : ℕ → Exec Error Tables GovernedAction
mark_executed id = update_status id 0 ActionStatus.executed (λ s. is_approved s || is_pending s)

unfoldable pub mark_failed : ℕ → Exec Error Tables GovernedAction
mark_failed id =
    update_status id 0 ActionStatus.failed (λ s. is_pending s || is_awaiting s || is_approved s)
