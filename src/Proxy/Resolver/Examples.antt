-- ===== src/Proxy/Resolver/Examples.antt =====
-- internal/proxy/connector_action_resumer.go: an approved action whose agent executes the tool, and one
-- whose agent is gone.
use heimdall.Base.{◌≡◌, refl, inl, inr, String, true, some, none, [], ◌∷◌}
use heimdall.Base.Text.{differs}
use heimdall.Base.Result.{ok}
use heimdall.Database.{ActionStatus, GovernedAction, ApprovalStatus, Request, Tables, str}
use heimdall.Connectors.Actions.{set_status}
use heimdall.Approvals.ConnectorActions.{extract_action_id}
use heimdall.Approvals.Tallies.{count, uuids}
use heimdall.Proxy.Protocol.{Frame}
use heimdall.Proxy.Resolver.{Agents, resolve_connector_action}
use heimdall.Proxy.Resolver.Reported.{IsPassedOver, SaysExecuted, IsExecuted}
use heimdall.Proxy.Resolver.Rows.{Has, calm}
use heimdall.Proxy.Resolver.Settled.{Settles, resolve_connector_action-Settles}

abbrev waiting : GovernedAction
waiting = record {
  id = 6;
  tenant_id = 7;
  agent_id = some 3;
  approval_request_id = some 8;
  connector_id = 2;
  session_id = "s";
  correlation_id = "c";
  tool_name = "delete_repo";
  risk_class = "destructive_actions";
  target_type = "repo";
  target_label = "r";
  action_summary = "delete r";
  arguments = "";
  status = ActionStatus.awaiting_approval;
  created_at = 100;
  updated_at = 100;
}

abbrev request : Request
request = record {
  id = 8;
  tenant_id = 7;
  agent_id = some 3;
  requested_by = some 20;
  reviewed_by = some 21;
  channel_outbox_id = none;
  risk_class = "destructive_actions";
  status = ApprovalStatus.approved;
  target_type = "repo";
  target_label = "r";
  action_summary = "delete r";
  metadata = ("governed_action_id", str "111111") ∷ [];
  created_at = 100;
  reviewed_at = some 120;
  expires_at = none;
}

abbrev tables : Tables
tables = record {
  tenant = 0;
  next_id = 9;
  messages = [];
  actions = waiting ∷ [];
  requests = request ∷ [];
  outbox = [];
}

abbrev reply : String → Frame
reply kind = record { frame_type = kind; id = "r"; payload = [] }

abbrev agents : Agents
agents = record {
  lookup = λ agent. ok true;
  connect = λ agent. ok tt;
  send_resume = λ asked action. ok (reply "runtime_event" ∷ reply "tool_executed" ∷ []);
}

named : extract_action_id uuids request.metadata ≡ some 6
unfolding extract_action_id count
named = refl

there : Has 7 6 tables waiting
there = record { keyed = (tt, tt); found = refl }

reported : IsExecuted agents request (set_status 0 ActionStatus.approved 130 waiting) 3
unfolding SaysExecuted
reported =
    let event : IsPassedOver (reply "runtime_event") =
      (differs _ _ refl, differs _ _ refl, differs _ _ refl) in
    (refl, refl, _, refl, inr (event, inl refl))

resolve_connector_action-Settles_example :
    (b : GovernedAction) × Has 7 6
      (resolve_connector_action uuids agents 7 request true (calm 130 tables)).1.tables
      b
    × Settles true
        (IsExecuted agents request (set_status 0 ActionStatus.approved 130 waiting) 3)
        (resolve_connector_action uuids agents 7 request true (calm 130 tables)).0
        b.status
resolve_connector_action-Settles_example =
    resolve_connector_action-Settles uuids agents 7 6 130 3 request true tables waiting named there
      refl refl
