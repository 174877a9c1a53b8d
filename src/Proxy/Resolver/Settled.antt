-- ===== src/Proxy/Resolver/Settled.antt =====
-- internal/proxy/connector_action_resumer.go: an answered action is settled.
use heimdall.Base.{ℕ, ◌≡◌, refl, sym, ap, ◌∙◌, ◌⊎◌, inl, inr, subst, Bool, true, false, ◌||◌, some}
use heimdall.Base.Result.{Result, ok, err}
use heimdall.Database.{ActionStatus, GovernedAction, Request, Tables}
use heimdall.Connectors.Actions.{
  set_status, mark_executed, mark_failed, is_awaiting, is_pending, is_approved,
}
use heimdall.Approvals.ConnectorActions.{Uuids, extract_action_id}
use heimdall.Proxy.Resolver.{
  Agents, ResolveError, resume, fail_action, settle_action, execute_for, resolve_connector_action,
}
use heimdall.Proxy.Resolver.Reported.{Ends, IsExecuted, resume-Ends}
use heimdall.Proxy.Resolver.Rows.{
  Has, calm, updated, Has-updated, update_status-allowed, id-found, review-ok,
}

abbrev pub status_after : Result ResolveError (Unit {0}) → ActionStatus
status_after (ok _) = ActionStatus.executed
status_after (err e) = ActionStatus.failed

-- What the code answers and writes, by what the way to the agent gave.
abbrev Follows :
    Bool → Result ResolveError (Unit {0}) → Result ResolveError (Unit {0}) → ActionStatus → Type 0
Follows false answer done status = (answer ≡ ok tt) × (status ≡ ActionStatus.denied)
Follows true answer done status = (answer ≡ done) × (status ≡ status_after done)

-- An approved action ends as the agent answered.
settle_action-Has :
    (tenant id now : ℕ) (t : Tables) (a : GovernedAction) (done : Result ResolveError (Unit {0}))
    → Has tenant id t a
    → a.status ≡ ActionStatus.approved
    → let after = settle_action tenant a (calm now t) done in
      (b : GovernedAction) × Has tenant id after.1.tables b × Follows true after.0 done b.status
unfolding mark_executed mark_failed fail_action
settle_action-Has tenant id now t a (ok u) h is =
    let good : (is_approved a.status || is_pending a.status) ≡ true = rw is refl in
    let same =
      update_status-allowed tenant id 0 now ActionStatus.executed
        (λ s. is_approved s || is_pending s) t a h good in
    rw (id-found tenant id t a h, same)
      (
        _,
        Has-updated tenant id 0 now ActionStatus.executed (λ s. is_approved s || is_pending s) t a h
            good,
        (refl, refl),
      )
settle_action-Has tenant id now t a (err e) h is =
    let good : (is_pending a.status || is_awaiting a.status || is_approved a.status) ≡ true =
      rw is refl in
    let same =
      update_status-allowed tenant id 0 now ActionStatus.failed
        (λ s. is_pending s || is_awaiting s || is_approved s) t a h good in
    rw (id-found tenant id t a h, same)
      (
        _,
        Has-updated tenant id 0 now ActionStatus.failed
            (λ s. is_pending s || is_awaiting s || is_approved s) t a h good,
        (refl, refl),
      )

resolve_connector_action-Follows :
    (uuids : Uuids) (agents : Agents) (tenant id now agent : ℕ) (request : Request)
    (approved : Bool) (t : Tables) (a : GovernedAction)
    → extract_action_id uuids request.metadata ≡ some id
    → Has tenant id t a
    → (is_awaiting a.status || is_pending a.status) ≡ true
    → a.agent_id ≡ some agent
    → let after = resolve_connector_action uuids agents tenant request approved (calm now t) in
      let done = resume agents request (set_status 0 ActionStatus.approved now a) agent in
      (b : GovernedAction) × Has tenant id after.1.tables b × Follows approved after.0 done b.status
unfolding resolve_connector_action
resolve_connector_action-Follows uuids agents tenant id now agent request false t a names h waits
      has =
    let reviewed = review-ok tenant id now false t a h waits in
    rw (names, reviewed)
      (
        _,
        Has-updated tenant id 0 now ActionStatus.denied (λ s. is_awaiting s || is_pending s) t a h
            waits,
        (refl, refl),
      )
resolve_connector_action-Follows uuids agents tenant id now agent request true t a names h waits
      has =
    let reviewed = review-ok tenant id now true t a h waits in
    let approved_row =
      Has-updated tenant id 0 now ActionStatus.approved (λ s. is_awaiting s || is_pending s) t a h
        waits in
    rw (names, reviewed)
      (subst
        (λ o.
          let after =
            execute_for agents tenant request (set_status 0 ActionStatus.approved now a)
              (calm now (
                updated tenant id 0 ActionStatus.approved (λ s. is_awaiting s || is_pending s) now
                  t))
              o in
          let done = resume agents request (set_status 0 ActionStatus.approved now a) agent in
          (b : GovernedAction) × Has tenant id after.1.tables b
          × Follows true after.0 done b.status)
        (sym has)
        (settle_action-Has tenant id now _ (set_status 0 ActionStatus.approved now a)
          (resume agents request (set_status 0 ActionStatus.approved now a) agent) approved_row
          refl))

-- What is settled: a denial denies; an approved action is executed and the call succeeds where it was
-- executed, and the action is failed and the call gives an error where it was not.
abbrev pub Settles : Bool → Type 0 → Result ResolveError (Unit {0}) → ActionStatus → Type 0
Settles false Executed answer status = (answer ≡ ok tt) × (status ≡ ActionStatus.denied)
Settles true Executed answer status =
    (Executed × (answer ≡ ok tt) × (status ≡ ActionStatus.executed))
    ⊎ ((Executed → ⊥) × (e : ResolveError) × (answer ≡ err e) × (status ≡ ActionStatus.failed))

Settles-Follows :
    (approved : Bool) (Executed : Type 0) (answer done : Result ResolveError (Unit {0}))
    (status : ActionStatus)
    → Ends Executed done
    → Follows approved answer done status
    → Settles approved Executed answer status
Settles-Follows false Executed answer done status ends follows = follows
Settles-Follows true Executed answer done status (inl (good, executed)) (same, is) =
    inl (executed, same ∙ good, is ∙ ap status_after good)
Settles-Follows true Executed answer done status (inr (e, bad, not_executed)) (same, is) =
    inr (not_executed, e, same ∙ bad, is ∙ ap status_after bad)

-- Where the request of an action that waits, or is still pending, is answered, the action has an agent and
-- no statement fails, the action is settled. A denied one is denied. An approved one does not stay
-- approved: if the agent is running, is reached and takes the resume frame, and of the frames it replies
-- with the first tool_executed, tool_failed or error frame is a tool_executed, the action is executed and
-- the call succeeds; in every other case the action is failed and the call gives an error.
pub resolve_connector_action-Settles :
    (uuids : Uuids) (agents : Agents) (tenant id now agent : ℕ) (request : Request)
    (approved : Bool) (t : Tables) (a : GovernedAction)
    → extract_action_id uuids request.metadata ≡ some id
    → Has tenant id t a
    → (is_awaiting a.status || is_pending a.status) ≡ true
    → a.agent_id ≡ some agent
    → let after = resolve_connector_action uuids agents tenant request approved (calm now t) in
      let sent = set_status 0 ActionStatus.approved now a in
      (b : GovernedAction) × Has tenant id after.1.tables b
      × Settles approved (IsExecuted agents request sent agent) after.0 b.status
resolve_connector_action-Settles uuids agents tenant id now agent request approved t a names h waits
      has =
    let sent = set_status 0 ActionStatus.approved now a in
    let (b, there, follows) =
      resolve_connector_action-Follows uuids agents tenant id now agent request approved t a names h
        waits has in
    (b, there, Settles-Follows approved _ _ _ _ (resume-Ends agents request sent agent) follows)
