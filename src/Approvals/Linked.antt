-- ===== src/Approvals/Linked.antt =====
-- What asking for approval of a governed action leaves: an action and a request that name each other.
use heimdall.Base.{ℕ, suc, ◌≡◌, ap, ◌∙◌, some, arith, ◌==◌, Bool-cases, inl, inr, ◌<◌}
use heimdall.Base.Result.{ok, ok-injective}
use heimdall.Base.Session.{Session, pure, statement-ok, ◌>>=◌, >>=-ok}
use heimdall.Database.{ActionStatus, ApprovalStatus, GovernedAction, Request, Tables, Error}
use heimdall.Connectors.Actions
use heimdall.Connectors.Actions.{
  CreateGovernedActionParams, mark_awaiting_approval, inserted_action, set_status,
}
use heimdall.Connectors.Actions.Transitions.{update_status-ok}
use heimdall.Approvals
use heimdall.Approvals.{CreateParams, inserted_request}
use heimdall.Approvals.ConnectorActions
use heimdall.Approvals.ConnectorActions.{
  ConnectorActionParams, ConnectorActionResult, Uuids, action_params, request_params,
  action_metadata, extract_action_id,
}

inserted :
    (p : CreateGovernedActionParams) (s : Session Tables) (a : GovernedAction)
    → (Actions.create p s).0 ≡ ok a
    → (a ≡ inserted_action p s.tables.next_id s.now)
      × ((Actions.create p s).1.tables.next_id ≡ suc s.tables.next_id)
unfolding Actions.create
inserted p s a h = let ran = statement-ok _ _ s a h in (ran.0, ap (λ (t : Tables). t.next_id) ran.1)

requested :
    (p : CreateParams) (s : Session Tables) (r : Request)
    → (Approvals.create p s).0 ≡ ok r
    → r ≡ inserted_request p s.tables.next_id s.now
unfolding Approvals.create
requested p s r h = (statement-ok _ _ s r h).0

waiting :
    (id approval_id : ℕ) (s : Session Tables) (a : GovernedAction)
    → 0 < approval_id
    → (mark_awaiting_approval id approval_id s).0 ≡ ok a
    → (a.id ≡ id)
      × (a.status ≡ ActionStatus.awaiting_approval)
      × (a.approval_request_id ≡ some approval_id)
unfolding mark_awaiting_approval
waiting id approval_id s a pos h =
    let (u, hit, same) = update_status-ok id approval_id _ _ s a h in
    (ground arith, ground arith, ground arith)

module _ (uuids : Uuids) where
  open uuids use {to_string, parse, parse-to_string}

  metadata-id :
      (p : ConnectorActionParams) (a : GovernedAction)
      → extract_action_id uuids (action_metadata uuids p a) ≡ some a.id
  unfolding extract_action_id action_metadata
  metadata-id p a = elim (Bool-cases (p.arguments == "")) [
    | inl bare ↦ rw bare (parse-to_string a.id)
    | inr given ↦ rw given (parse-to_string a.id)
  ]

  -- Where `CreateForConnectorAction` succeeds, whatever statements failed on the way to it, the
  -- action waits under the id of the request, the request is pending, and the id which the resolver
  -- reads from the metadata of the request is that of the action.
  pub create-links :
      (params : ConnectorActionParams) (s : Session Tables) (r : ConnectorActionResult)
      → (ConnectorActions.create uuids params s).0 ≡ ok r
      → (extract_action_id uuids r.approval.metadata ≡ some r.action.id)
        × (r.action.approval_request_id ≡ some r.approval.id)
        × (r.action.status ≡ ActionStatus.awaiting_approval)
        × (r.approval.status ≡ ApprovalStatus.pending)
        × (r.approval.requested_by ≡ params.requested_by)
  unfolding ConnectorActions.create
  create-links params s r h =
      let make = Actions.create (action_params uuids params) in
      let ask =
        λ (action : GovernedAction). Approvals.create (request_params uuids params action) in
      let mark = λ (action : GovernedAction) (approval : Request).
        mark_awaiting_approval action.id approval.id in
      let pair = λ (approval : Request) (action : GovernedAction).
        pure {E = Error} {T = Tables}
          (let x : ConnectorActionResult = record { approval = approval; action = action } in x) in
      let (action, made, h1) = >>=-ok make (λ a. ask a >>= λ q. mark a q >>= pair q) s r h in
      let s1 = (make s).1 in
      let (approval, asked, h2) = >>=-ok (ask action) (λ q. mark action q >>= pair q) s1 r h1 in
      let s2 = (ask action s1).1 in
      let (marked, waits, h3) = >>=-ok (mark action approval) (pair approval) s2 r h2 in
      let (is_action, next) = inserted (action_params uuids params) s action made in
      let is_request = requested (request_params uuids params action) s1 approval asked in
      let id_of : approval.id ≡ suc s.tables.next_id =
        ap (λ (q : Request). q.id) is_request ∙ next in
      let (same_id, waiting_now, linked) =
        waiting action.id approval.id s2 marked (omega arith) waits in
      let answer = ok-injective {E = Error} _ _ h3 in
      let ra = ap (λ (x : ConnectorActionResult). x.approval) answer in
      let rm = ap (λ (x : ConnectorActionResult). x.action) answer in
      let written : approval.metadata ≡ action_metadata uuids params action =
        ap (λ (q : Request). q.metadata) is_request in
      let pending : approval.status ≡ ApprovalStatus.pending =
        ap (λ (q : Request). q.status) is_request in
      let by : approval.requested_by ≡ params.requested_by =
        ap (λ (q : Request). q.requested_by) is_request in
      (
        cc (ra, rm, written, metadata-id params action, same_id),
        cc (ra, rm, linked),
        cc (rm, waiting_now),
        cc (ra, pending),
        cc (ra, by),
      )
