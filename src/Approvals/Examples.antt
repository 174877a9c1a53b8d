-- ===== src/Approvals/Examples.antt =====
-- The theorems on approvals at a table with one pending request that holds an outbox row.
use heimdall.Base.{◌≡◌, ◌≢◌, refl, true, false, none, some, [], ◌∷◌, arith, All}
use heimdall.Base.Result.{ok, err}
use heimdall.Base.Session.{Session}
use heimdall.Database.{
  ActionStatus, ApprovalStatus, OutboxStatus, ChannelOutbox, GovernedAction, Request, Tables,
  statement_failed, approval_self_review,
}
use heimdall.Database.Tenant.{
  SameRows, with_tenant_transaction, in_transaction, set_config, begin, commit, with_reset,
  or_rollback, with_tenant_transaction-err,
}
use heimdall.Connectors.Actions
use heimdall.Connectors.Actions.{inserted_action, set_status, mark_awaiting_approval, update_status}
use heimdall.Approvals.{
  CreateParams, create, inserted_request, resolve, approve, deny, set_resolved, get_for_resolve,
  resolve_existing, mark_resolved, after_update, update_linked,
}
use heimdall.Approvals.Resolution.{find_request, resolve-ok, resolve_again, resolve_half_done}
use heimdall.Approvals.Reviewed.{IsReviewed, resolve-IsReviewed}
use heimdall.Approvals.ConnectorActions
use heimdall.Approvals.Tallies.{uuids}
use heimdall.Approvals.ConnectorActions.{
  ConnectorActionParams, ConnectorActionResult, Uuids, create_for_connector_action,
  extract_action_id, action_params, request_params, action_metadata,
}
use heimdall.Approvals.Linked.{create-links}

abbrev params : CreateParams
params = record {
  tenant_id = 7;
  agent_id = some 3;
  requested_by = some 20;
  channel_outbox_id = some 5;
  risk_class = "channel_sends";
  target_type = "slack";
  target_label = "general";
  action_summary = "send";
  metadata = [];
  expires_at = none;
}

abbrev request : Request
request = inserted_request params 1 100

abbrev held : ChannelOutbox
held = record {
  id = 5;
  tenant_id = 7;
  channel_message_id = 4;
  provider = "slack";
  recipient_id = "u";
  payload = "{}";
  status = OutboxStatus.pending_approval;
  attempt_count = 0;
  max_attempts = 5;
  next_attempt_at = 90;
  last_error = none;
  locked_at = none;
  sent_at = none;
  created_at = 80;
  updated_at = 80;
}

abbrev before : Session Tables
before = record {
  tables = record {
    tenant = 7;
    next_id = 6;
    messages = [];
    actions = [];
    requests = request ∷ [];
    outbox = held ∷ [];
  };
  now = 130;
  faults = [];
}

abbrev resolved : Request
resolved = set_resolved 21 ApprovalStatus.approved 130 request

reviewer_approves : (approve 1 21 7 before).0 ≡ ok resolved
unfolding approve resolve get_for_resolve resolve_existing mark_resolved after_update update_linked
reviewer_approves = refl

requester_does_not : (deny 1 20 7 before).0 ≡ err approval_self_review
unfolding deny resolve get_for_resolve resolve_existing
requester_does_not = refl

approved : (resolve 1 21 7 ApprovalStatus.approved before).0 ≡ ok resolved
unfolding resolve get_for_resolve resolve_existing mark_resolved after_update update_linked
approved = refl

resolve-ok_example :
    (resolved.id ≡ 1)
    × (resolved.tenant_id ≡ 7)
    × (resolved.requested_by ≢ some 21)
    × (resolved.reviewed_by ≡ some 21)
    × (resolved.status ≡ ApprovalStatus.approved)
    × ((q : Request) × (find_request 7 1 before ≡ some q)
        × (q.status ≡ ApprovalStatus.pending)
        × (q.requested_by ≢ some 21))
resolve-ok_example = resolve-ok 1 21 7 ApprovalStatus.approved before resolved approved

resolve_again_example :
    (resolve 1 22 7 ApprovalStatus.denied (resolve 1 21 7 ApprovalStatus.approved before).1).0
    ≢ ok resolved
resolve_again_example =
    resolve_again 1 21 7 ApprovalStatus.approved before resolved approved refl 22
      ApprovalStatus.denied (resolve 1 21 7 ApprovalStatus.approved before).1 resolved refl

abbrev third_fails : Session Tables
third_fails = record before { faults = false ∷ false ∷ true ∷ [] }

resolve_half_done_example :
    let (answer, after) = resolve 1 21 7 ApprovalStatus.approved third_fails in
    (answer ≡ err statement_failed)
    × (after.tables.outbox ≡ held ∷ [])
    × (find_request 7 1 after ≡ some resolved)
resolve_half_done_example =
    resolve_half_done 1 21 7 5 ApprovalStatus.approved third_fails request refl refl
      (λ e. ground arith) refl refl

resolve-IsReviewed_example :
    All IsReviewed (resolve 1 21 7 ApprovalStatus.approved before).1.tables.requests
resolve-IsReviewed_example =
    resolve-IsReviewed 1 21 7 ApprovalStatus.approved before (λ h. ground arith, tt)

abbrev action : ConnectorActionParams
action = record {
  tenant_id = 7;
  agent_id = some 3;
  requested_by = some 20;
  connector_id = 2;
  connector_name = "github";
  session_id = "s";
  correlation_id = "c";
  tool_name = "delete_repo";
  risk_class = "destructive_actions";
  target_type = "repo";
  target_label = "r";
  action_summary = "delete r";
  arguments = "";
  metadata = [];
  expires_at = none;
}

abbrev inserted : GovernedAction
inserted = inserted_action (action_params uuids action) 6 130

abbrev asked : ConnectorActionResult
asked = record {
  approval = inserted_request (request_params uuids action inserted) 7 130;
  action = set_status 7 ActionStatus.awaiting_approval 130 inserted;
}

asks : (ConnectorActions.create uuids action before).0 ≡ ok asked
unfolding ConnectorActions.create Actions.create create mark_awaiting_approval update_status
asks = refl

create-links_example :
    (extract_action_id uuids asked.approval.metadata ≡ some 6)
    × (asked.action.approval_request_id ≡ some 7)
    × (asked.action.status ≡ ActionStatus.awaiting_approval)
    × (asked.approval.status ≡ ApprovalStatus.pending)
    × (asked.approval.requested_by ≡ some 20)
unfolding action_params request_params
create-links_example = create-links uuids action before asked asks

-- The commit is the fourth.
abbrev no_commit : Session Tables
no_commit = record before { faults = false ∷ false ∷ false ∷ true ∷ [] }

not_committed : (with_tenant_transaction 7 (create params) no_commit).0 ≡ err statement_failed
unfolding create with_tenant_transaction in_transaction set_config begin commit with_reset
    or_rollback
not_committed = refl

with_tenant_transaction-err_example :
    SameRows (with_tenant_transaction 7 (create params) no_commit).1.tables before.tables
with_tenant_transaction-err_example =
    with_tenant_transaction-err 7 (create params) no_commit statement_failed not_committed
