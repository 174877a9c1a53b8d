-- ===== src/Approvals/Reviewed.antt =====
-- Separation of duties as an invariant of the table of requests.
use heimdall.Base.{ℕ, ◌≡◌, ◌≢◌, refl, ◌⊎◌, true, Option, none, some, arith, All}
use heimdall.Base.Session.{Session}
use heimdall.Base.Table.{All-update_where}
use heimdall.Base.Session.Keeps.{Keeps, Keeps-pure, Keeps-raise, Keeps-statement, Keeps-bind}
use heimdall.Database.{ApprovalStatus, Request, Tables, approval_not_pending}
use heimdall.Approvals.{
  can_resolve, set_resolved, get_for_resolve, resolve, request_update, outbox_update, update_linked,
  after_update, mark_resolved, resolve_existing, or_not_found,
}

-- Separation of duties: every request that was approved or denied has a reviewer, and that is not
-- who made the request.
abbrev pub IsReviewed : Request → Type 0
IsReviewed r =
    (r.status ≡ ApprovalStatus.approved) ⊎ (r.status ≡ ApprovalStatus.denied)
    → (u : ℕ) × (r.reviewed_by ≡ some u) × (r.requested_by ≢ some u)

set_resolved-IsReviewed :
    (id reviewer tenant : ℕ) (status : ApprovalStatus) (now : ℕ) (r : Request)
    → can_resolve tenant id reviewer r ≡ true
    → IsReviewed (set_resolved reviewer status now r)
set_resolved-IsReviewed id reviewer tenant status now r h resolved = (reviewer, refl, ground arith)

abbrev AllReviewed : Tables → Type 0
AllReviewed t = All IsReviewed t.requests

get_for_resolve-Keeps : (id tenant : ℕ) → Keeps AllReviewed (get_for_resolve id tenant)
unfolding get_for_resolve
get_for_resolve-Keeps id tenant = Keeps-bind _ _ (Keeps-statement _ _ (λ now t h. h)) answer
  where
    answer : (o : Option Request) → Keeps AllReviewed (or_not_found o)
    answer none = Keeps-raise _
    answer (some r) = Keeps-pure _

update_linked-Keeps :
    (status : ApprovalStatus) (request : Request) (o : Option ℕ)
    → Keeps AllReviewed (update_linked status request o)
unfolding update_linked
update_linked-Keeps status request none = Keeps-pure request
update_linked-Keeps status request (some outbox_id) =
    Keeps-statement _ (outbox_update status outbox_id request) (λ now t h. h)

after_update-Keeps :
    (status : ApprovalStatus) (o : Option Request) → Keeps AllReviewed (after_update status o)
unfolding after_update
after_update-Keeps status none = Keeps-raise approval_not_pending
after_update-Keeps status (some request) =
    update_linked-Keeps status request request.channel_outbox_id

mark_resolved-Keeps :
    (id reviewer tenant : ℕ) (status : ApprovalStatus)
    → Keeps AllReviewed (mark_resolved id reviewer tenant status)
unfolding mark_resolved
mark_resolved-Keeps id reviewer tenant status =
    Keeps-bind _ _
      (Keeps-statement _ (request_update id reviewer tenant status) (λ now t h.
        All-update_where IsReviewed (can_resolve tenant id reviewer)
          (set_resolved reviewer status now)
          (λ r _ hit. set_resolved-IsReviewed id reviewer tenant status now r hit) t.requests h))
      (after_update-Keeps status)

resolve_existing-Keeps :
    (q : Request) (id reviewer tenant : ℕ) (status : ApprovalStatus)
    → Keeps AllReviewed (resolve_existing q id reviewer tenant status)
unfolding resolve_existing
resolve_existing-Keeps q id reviewer tenant status = record {
  at = λ s h. ground (arith, (mark_resolved-Keeps id reviewer tenant status).at s h);
}

-- The invariant is kept by every resolution, whether it succeeds or fails and whatever statements fail.
pub resolve-IsReviewed :
    (id reviewer tenant : ℕ) (status : ApprovalStatus) (s : Session Tables)
    → All IsReviewed s.tables.requests
    → All IsReviewed (resolve id reviewer tenant status s).1.tables.requests
unfolding resolve
resolve-IsReviewed id reviewer tenant status s h =
    (Keeps-bind (get_for_resolve id tenant) (λ q. resolve_existing q id reviewer tenant status)
        (get_for_resolve-Keeps id tenant)
        (λ q. resolve_existing-Keeps q id reviewer tenant status)).at
      s h
