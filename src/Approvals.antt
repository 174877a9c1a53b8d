-- ===== src/Approvals.antt =====
-- internal/approvals/approvals.go: the store of approval requests, and the transaction in which a
-- governed connector action asks for approval.
pub mod Resolution
pub mod Reviewed
pub mod ConnectorActions
pub mod Linked
pub mod Tallies
mod Examples
use heimdall.Base.{
  ℕ, suc, String, Bool, true, false, ◌&&◌, not, Option, none, some, List, [], ◌∷◌, ◌++◌, eqb,
  if◌then◌else◌,
}
use heimdall.Base.Result.{ok, err}
use heimdall.Base.Session.{Session, Exec, pure, raise, statement, ◌>>=◌}
use heimdall.Base.Table.{update_where, first_where, returning}
use heimdall.Database.{
  ApprovalStatus, OutboxStatus, Any, Metadata, Request, ChannelOutbox, Tables, Error,
  statement_failed, approval_not_found, approval_not_pending, approval_self_review,
}

pub record CreateParams : Type 0 where
  pub tenant_id : ℕ
  pub agent_id : Option ℕ
  pub requested_by : Option ℕ
  pub channel_outbox_id : Option ℕ
  pub risk_class : String
  pub target_type : String
  pub target_label : String
  pub action_summary : String
  pub metadata : Metadata
  pub expires_at : Option ℕ

abbrev pub inserted_request : CreateParams → ℕ → ℕ → Request
inserted_request p id now = record {
  id = id;
  tenant_id = p.tenant_id;
  agent_id = p.agent_id;
  requested_by = p.requested_by;
  reviewed_by = none;
  channel_outbox_id = p.channel_outbox_id;
  risk_class = p.risk_class;
  status = ApprovalStatus.pending;
  target_type = p.target_type;
  target_label = p.target_label;
  action_summary = p.action_summary;
  metadata = p.metadata;
  created_at = now;
  reviewed_at = none;
  expires_at = p.expires_at;
}

unfoldable pub create : CreateParams → Exec Error Tables Request
create params = statement statement_failed λ now t.
    let request = inserted_request params t.next_id now in
    (request, record t { next_id = suc t.next_id; requests = t.requests ++ request ∷ [] })

abbrev pub is_pending : ApprovalStatus → Bool
is_pending ApprovalStatus.pending = true
is_pending _ = false

abbrev pub is_approved : ApprovalStatus → Bool
is_approved ApprovalStatus.approved = true
is_approved _ = false

-- `WHERE id = $1 AND tenant_id = $2`
abbrev pub is_row : ℕ → ℕ → Request → Bool
is_row tenant id r = eqb r.id id && eqb r.tenant_id tenant

abbrev pub or_not_found : Option Request → Exec Error Tables Request
or_not_found none = raise approval_not_found
or_not_found (some r) = pure r

unfoldable pub get_for_resolve : ℕ → ℕ → Exec Error Tables Request
get_for_resolve approval_id tenant_id = do
  found ←
      statement statement_failed
        (λ now t. (first_where (is_row tenant_id approval_id) t.requests, t))
  or_not_found found

-- `existing.RequestedBy != nil && *existing.RequestedBy == reviewerID`
abbrev pub is_requester : ℕ → Option ℕ → Bool
is_requester reviewer none = false
is_requester reviewer (some user) = eqb user reviewer

abbrev pub can_resolve : ℕ → ℕ → ℕ → Request → Bool
can_resolve tenant id reviewer r =
    is_row tenant id r && is_pending r.status && not (is_requester reviewer r.requested_by)

abbrev pub set_resolved : ℕ → ApprovalStatus → ℕ → Request → Request
set_resolved reviewer status now r = record r {
  status = status;
  reviewed_by = some reviewer;
  reviewed_at = some now;
}

abbrev pub is_held : ℕ → ChannelOutbox → Bool
is_held id o = eqb o.id id && (elim o.status [ OutboxStatus.pending_approval ↦ true | _ ↦ false ])

-- The two UPDATEs of the linked outbox row.
abbrev pub set_released : ℕ → ChannelOutbox → ChannelOutbox
set_released now o = record o {
  status = OutboxStatus.pending;
  next_attempt_at = now;
  last_error = none;
  locked_at = none;
  updated_at = now;
}

abbrev pub set_refused : ℕ → ChannelOutbox → ChannelOutbox
set_refused now o = record o {
  status = OutboxStatus.dead;
  last_error = some "approval denied";
  locked_at = none;
  updated_at = now;
}

abbrev pub settle : ApprovalStatus → ℕ → ChannelOutbox → ChannelOutbox
settle status now o = if is_approved status then set_released now o else set_refused now o

-- The UPDATE of the request, and that of the outbox row which it may hold.
abbrev pub request_update : ℕ → ℕ → ℕ → ApprovalStatus → ℕ → Tables → Option Request × Tables
request_update id reviewer tenant status now t = (
  returning (can_resolve tenant id reviewer) (set_resolved reviewer status now) t.requests,
  record t {
    requests =
        update_where (can_resolve tenant id reviewer) (set_resolved reviewer status now) t.requests;
  },
)

abbrev pub outbox_update : ApprovalStatus → ℕ → Request → ℕ → Tables → Request × Tables
outbox_update status outbox_id request now t =
    (request, record t { outbox = update_where (is_held outbox_id) (settle status now) t.outbox })

unfoldable pub update_linked : ApprovalStatus → Request → Option ℕ → Exec Error Tables Request
update_linked status request none = pure request
update_linked status request (some outbox_id) =
    statement statement_failed (outbox_update status outbox_id request)

unfoldable pub after_update : ApprovalStatus → Option Request → Exec Error Tables Request
after_update status none = raise approval_not_pending
after_update status (some request) = update_linked status request request.channel_outbox_id

unfoldable pub mark_resolved : ℕ → ℕ → ℕ → ApprovalStatus → Exec Error Tables Request
mark_resolved id reviewer tenant status = do
  updated ← statement statement_failed (request_update id reviewer tenant status)
  after_update status updated

unfoldable pub resolve_existing : Request → ℕ → ℕ → ℕ → ApprovalStatus → Exec Error Tables Request
resolve_existing existing id reviewer tenant status =
    if is_requester reviewer existing.requested_by
    then raise approval_self_review
    else (if is_pending existing.status
        then mark_resolved id reviewer tenant status
        else raise approval_not_pending)

unfoldable pub resolve : ℕ → ℕ → ℕ → ApprovalStatus → Exec Error Tables Request
resolve approval_id reviewer tenant status = do
  existing ← get_for_resolve approval_id tenant
  resolve_existing existing approval_id reviewer tenant status

unfoldable pub approve : ℕ → ℕ → ℕ → Exec Error Tables Request
approve approval_id reviewer tenant = resolve approval_id reviewer tenant ApprovalStatus.approved

unfoldable pub deny : ℕ → ℕ → ℕ → Exec Error Tables Request
deny approval_id reviewer tenant = resolve approval_id reviewer tenant ApprovalStatus.denied
