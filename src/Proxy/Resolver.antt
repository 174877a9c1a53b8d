-- ===== src/Proxy/Resolver.antt =====
-- internal/proxy/connector_action_resumer.go: what becomes of a governed action when its request has been
-- answered. The audit log is left out; the agents and their connections are parameters.
pub mod Rows
pub mod Reported
pub mod Settled
mod Examples
use heimdall.Base.{
  ℕ, String, Bool, true, false, ◌||◌, Option, none, some, List, [], ◌∷◌, ◌==◌, if◌then◌else◌,
}
use heimdall.Base.Result.{Result, ok, err, ◌>>=◌}
use heimdall.Base.Session
use heimdall.Base.Session.{Session, Exec}
use heimdall.Database.{GovernedAction, Request, Tables, Error}
use heimdall.Database.Tenant.{with_tenant_connection}
use heimdall.Connectors.Actions.{get_by_id, mark_approved, mark_denied, mark_executed, mark_failed}
use heimdall.Approvals.ConnectorActions.{Uuids, extract_action_id}
use heimdall.Proxy.Protocol.{Frame}

pub data ResolveError : Type 0 where
  stored : Error → ResolveError
  agent_unknown not_connected not_sent : String → ResolveError
  no_agent not_running no_reply not_executed : ResolveError

-- `lookup` says whether an agent is running and has an address, `connect` is `ConnPool.Get`, and
-- `send_resume` is `SendRequest` of the resume frame with the frames that its stream gives before it ends.
pub record Agents : Type 0 where
  pub lookup : ℕ → Result String Bool
  pub connect : ℕ → Result String (Unit {0})
  pub send_resume : Request → GovernedAction → Result String (List Frame)

-- The loop over the replies; a frame of any other type is passed over.
unfoldable pub await_result : List Frame → Result ResolveError (Unit {0})
await_result [] = err no_reply
await_result (reply ∷ replies) =
    let rest = await_result replies in
    if reply.frame_type == "tool_executed"
    then ok tt
    else if reply.frame_type == "tool_failed" || reply.frame_type == "error"
    then err not_executed
    else rest

abbrev pub map_error {ℓ} : {E A : Type ℓ} → (E → ResolveError) → Result E A → Result ResolveError A
map_error f (ok a) = ok a
map_error f (err e) = err (f e)

abbrev pub check_running : Bool → Result ResolveError (Unit {0})
check_running true = ok tt
check_running false = err not_running

-- The way to the agent and back, from the lookup to the reply that counts.
unfoldable pub resume : Agents → Request → GovernedAction → ℕ → Result ResolveError (Unit {0})
resume agents request action agent =
    map_error agent_unknown (agents.lookup agent) >>= check_running >>= λ _.
    map_error not_connected (agents.connect agent) >>= λ _.
    map_error not_sent (agents.send_resume request action) >>= await_result

-- `GetByID`, then `MarkApproved` or `MarkDenied`.
unfoldable pub review : ℕ → Bool → Exec Error Tables GovernedAction
review id approved =
    Session.◌>>=◌ (get_by_id id)
      (λ action. if approved then mark_approved action.id else mark_denied action.id)

-- `failConnectorAction`, whose own error is dropped.
unfoldable pub fail_action : ℕ → ℕ → Session Tables → Session Tables
fail_action tenant id s = (with_tenant_connection tenant (mark_failed id) s).1

abbrev pub resolved :
    Result Error GovernedAction × Session Tables → Result ResolveError (Unit {0}) × Session Tables
resolved (ok action, s) = (ok tt, s)
resolved (err e, s) = (err (stored e), s)

abbrev pub settle_action :
    ℕ
    → GovernedAction
    → Session Tables
    → Result ResolveError (Unit {0})
    → Result ResolveError (Unit {0}) × Session Tables
settle_action tenant action s (ok _) =
    resolved (with_tenant_connection tenant (mark_executed action.id) s)
settle_action tenant action s (err e) = (err e, fail_action tenant action.id s)

abbrev pub execute_for :
    Agents
    → ℕ
    → Request
    → GovernedAction
    → Session Tables
    → Option ℕ
    → Result ResolveError (Unit {0}) × Session Tables
execute_for agents tenant request action s none = (err no_agent, s)
execute_for agents tenant request action s (some agent) =
    settle_action tenant action s (resume agents request action agent)

abbrev pub after_review :
    Agents
    → ℕ
    → Request
    → Bool
    → Result Error GovernedAction × Session Tables
    → Result ResolveError (Unit {0}) × Session Tables
after_review agents tenant request approved (err e, s) = (err (stored e), s)
after_review agents tenant request false (ok action, s) = (ok tt, s)
after_review agents tenant request true (ok action, s) =
    execute_for agents tenant request action s action.agent_id

abbrev pub with_action :
    Agents
    → ℕ
    → Request
    → Bool
    → Session Tables
    → Option ℕ
    → Result ResolveError (Unit {0}) × Session Tables
with_action agents tenant request approved s none = (ok tt, s)
with_action agents tenant request approved s (some id) =
    after_review agents tenant request approved
      (with_tenant_connection tenant (review id approved) s)

-- `ResolveConnectorAction`
unfoldable pub resolve_connector_action :
    Uuids
    → Agents
    → ℕ
    → Request
    → Bool
    → Session Tables
    → Result ResolveError (Unit {0}) × Session Tables
resolve_connector_action uuids agents tenant request approved s =
    with_action agents tenant request approved s (extract_action_id uuids request.metadata)
