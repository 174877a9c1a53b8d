-- ===== src/Connectors/Actions/Examples.antt =====
-- The theorems on governed actions at a table with one waiting action.
use heimdall.Base.{◌≡◌, ◌≢◌, refl, ◌⊎◌, inr, Bool, true, false, none, some, [], ◌∷◌}
use heimdall.Base.Result.{ok, err}
use heimdall.Base.Session.{Session}
use heimdall.Database.{
  ActionStatus, GovernedAction, Tables, action_not_found, action_invalid_transition,
}
use heimdall.Connectors.Actions.{
  CreateGovernedActionParams, create, mark_approved, mark_executed, set_status, update_status,
  inserted_action,
}
use heimdall.Connectors.Actions.Transitions.{
  find_action, update_status_branches, update_status-error,
}
use heimdall.Connectors.Actions.History.{
  approves, executes, fails, run, run-final, run-needs_approval,
}

abbrev params : CreateGovernedActionParams
params = record {
  tenant_id = 7;
  agent_id = some 3;
  connector_id = 5;
  session_id = "s";
  correlation_id = "c";
  tool_name = "delete_repo";
  risk_class = "destructive_actions";
  target_type = "repo";
  target_label = "r";
  action_summary = "delete r";
  arguments = "";
  status = none;
}

abbrev pending_action : GovernedAction
pending_action = inserted_action params 1 100

abbrev waiting_action : GovernedAction
waiting_action = set_status 9 ActionStatus.awaiting_approval 110 pending_action

abbrev failed_action : GovernedAction
failed_action = set_status 0 ActionStatus.failed 120 waiting_action

abbrev pub session_of : GovernedAction → Session Tables
session_of a = record {
  tables = record {
    tenant = 7;
    next_id = 2;
    messages = [];
    actions = a ∷ [];
    requests = [];
    outbox = [];
  };
  now = 130;
  faults = [];
}

create_fills_defaults :
    (create params (session_of waiting_action)).0 ≡ ok (inserted_action params 2 130)
unfolding create
create_fills_defaults = refl

-- A pending action may be executed with no approval.
pending_executes :
    (mark_executed 1 (session_of pending_action)).0
    ≡ ok (set_status 0 ActionStatus.executed 130 pending_action)
unfolding mark_executed update_status
pending_executes = refl

waiting_does_not_execute :
    (mark_executed 1 (session_of waiting_action)).0 ≡ err action_invalid_transition
unfolding mark_executed update_status
waiting_does_not_execute = refl

other_tenant :
    (mark_approved 1 (record (session_of waiting_action) {
      tables = record (session_of waiting_action).tables { tenant = 8 };
    })).0
    ≡ err action_not_found
unfolding mark_approved update_status
other_tenant = refl

abbrev can_execute : ActionStatus → Bool
can_execute ActionStatus.approved = true
can_execute _ = false

update_status_branches_example :
    ((find_action 1 (session_of waiting_action) ≡ none)
      × (update_status 1 0 ActionStatus.executed can_execute (session_of waiting_action)
          ≡ (err action_not_found, session_of waiting_action)))
    ⊎ ((a : GovernedAction) × (find_action 1 (session_of waiting_action) ≡ some a)
        × (can_execute a.status ≡ false)
        × (update_status 1 0 ActionStatus.executed can_execute (session_of waiting_action)
            ≡ (err action_invalid_transition, session_of waiting_action)))
    ⊎ ((a : GovernedAction) × (find_action 1 (session_of waiting_action) ≡ some a)
        × (can_execute a.status ≡ true)
        × ((update_status 1 0 ActionStatus.executed can_execute (session_of waiting_action)).0
            ≡ ok (set_status 0 ActionStatus.executed 130 a))
        × (find_action 1
              (update_status 1 0 ActionStatus.executed can_execute (session_of waiting_action)).1
            ≡ some (set_status 0 ActionStatus.executed 130 a)))
update_status_branches_example =
    update_status_branches 1 0 ActionStatus.executed can_execute (session_of waiting_action) refl
      (tt, tt)

update_status-error_example :
    (update_status 1 0 ActionStatus.executed can_execute (session_of waiting_action)).1.tables
    ≡ (session_of waiting_action).tables
unfolding update_status
update_status-error_example =
    update_status-error 1 0 ActionStatus.executed can_execute (session_of waiting_action)
      action_invalid_transition refl

run-final_example :
    (b : GovernedAction) × (find_action 1
        (run (session_of failed_action) (approves 1 ∷ executes 1 ∷ []))
      ≡ some b)
    × (b.status ≡ ActionStatus.failed)
run-final_example =
    run-final (session_of failed_action) (approves 1 ∷ executes 1 ∷ []) 1 failed_action refl
      (inr (inr refl))

run-needs_approval_example :
    (b : GovernedAction) × (find_action 1
        (run (session_of waiting_action) (executes 1 ∷ fails 1 ∷ executes 1 ∷ []))
      ≡ some b)
    × (b.status ≢ ActionStatus.approved)
    × (b.status ≢ ActionStatus.executed)
run-needs_approval_example =
    run-needs_approval (session_of waiting_action) (executes 1 ∷ fails 1 ∷ executes 1 ∷ []) 1
      waiting_action refl refl (λ e. cc, (λ e. cc, (λ e. cc, tt)))
