-- ===== src/Approvals/Resolution.antt =====
-- What approving or denying a request does: who may, what changes, and what a failure leaves behind.
use mathlib.Core.Option
use mathlib.Core.Option.{some-injective}
use heimdall.Base.{
  ℕ, ◌≡◌, ◌≢◌, refl, sym, ◌∙◌, ap, inl, inr, true, false, Option, none, some, [], ◌∷◌, arith,
  Option-cases,
}
use heimdall.Base.Result.{Result, ok, err}
use heimdall.Base.Session.{Session, statement, statement-ok, >>=-ok, >>=-from}
use heimdall.Base.Table.{
  update_where, first_where, first_where-update_where, first_where-holds, first_where-narrow,
}
use heimdall.Database.{ApprovalStatus, Request, Tables, Error, statement_failed}
use heimdall.Approvals.{
  is_row, is_pending, is_requester, can_resolve, set_resolved, get_for_resolve, resolve,
  request_update, outbox_update, update_linked, after_update, mark_resolved, resolve_existing,
}

abbrev pub find_request : ℕ → ℕ → Session Tables → Option Request
find_request tenant id s = first_where (is_row tenant id) s.tables.requests

get_for_resolve-ok :
    (id tenant : ℕ) (s : Session Tables) (q : Request)
    → (get_for_resolve id tenant s).0 ≡ ok q
    → (find_request tenant id s ≡ some q)
      × ((get_for_resolve id tenant s).1.tables ≡ s.tables)
      × ((get_for_resolve id tenant s).1.now ≡ s.now)
unfolding get_for_resolve
get_for_resolve-ok id tenant s q h = ground arith

update_linked-ok :
    (status : ApprovalStatus) (request : Request) (o : Option ℕ) (s : Session Tables) (r : Request)
    → (update_linked status request o s).0 ≡ ok r
    → (r ≡ request) × ((update_linked status request o s).1.tables.requests ≡ s.tables.requests)
unfolding update_linked
update_linked-ok status request none s r h = ground arith
update_linked-ok status request (some outbox_id) s r h =
    let ran = statement-ok statement_failed (outbox_update status outbox_id request) s r h in
    (ran.0, ap (λ (t : Tables). t.requests) ran.1)

after_update-ok :
    (status : ApprovalStatus) (o : Option Request) (s : Session Tables) (r : Request)
    → (after_update status o s).0 ≡ ok r
    → (o ≡ some r) × ((after_update status o s).1.tables.requests ≡ s.tables.requests)
unfolding after_update
after_update-ok status none s r h = absurd (ground arith)
after_update-ok status (some request) s r h =
    let (same, kept) = update_linked-ok status request request.channel_outbox_id s r h in
    (ap some (sym same), kept)

-- What a resolution that came to the end has updated.
pub record Resolved (id reviewer tenant : ℕ) (status : ApprovalStatus)
    (before after : Session Tables) (r : Request) : Type 0 where
  pub updated : Request
  pub hit : first_where (can_resolve tenant id reviewer) before.tables.requests ≡ some updated
  pub result : r ≡ set_resolved reviewer status before.now updated
  pub requests :
      after.tables.requests
      ≡ update_where
          (can_resolve tenant id reviewer)
          (set_resolved reviewer status before.now)
          before.tables.requests

mark_resolved-ok :
    (id reviewer tenant : ℕ) (status : ApprovalStatus) (s : Session Tables) (r : Request)
    → (mark_resolved id reviewer tenant status s).0 ≡ ok r
    → Resolved id reviewer tenant status s (mark_resolved id reviewer tenant status s).1 r
unfolding mark_resolved
mark_resolved-ok id reviewer tenant status s r h =
    let update = request_update id reviewer tenant status in
    let (o, ran, rest) =
      >>=-ok (statement statement_failed update) (λ o. after_update status o) s r h in
    let (answer, tables, now) = statement-ok statement_failed update s o ran in
    let (returned, kept) =
      after_update-ok status o (statement statement_failed update s).1 r rest in
    let from = >>=-from (statement statement_failed update) (λ o. after_update status o) s o ran in
    elim (Option-cases (first_where (can_resolve tenant id reviewer) s.tables.requests)) [
      | inl none_hit ↦
          absurd
            (cc (answer, returned, ap (Option.map (set_resolved reviewer status s.now)) none_hit))
      | inr (u, hit) ↦ record {
        updated = u;
        hit = hit;
        result =
            some-injective _ _
              (sym returned ∙ answer ∙ ap (Option.map (set_resolved reviewer status s.now)) hit);
        requests =
            ap (λ (x : Result Error Request × Session Tables). x.1.tables.requests) from
            ∙ kept
            ∙ ap (λ (t : Tables). t.requests) tables;
      }
    ]

resolve_existing-ok :
    (q : Request) (id reviewer tenant : ℕ) (status : ApprovalStatus) (s : Session Tables)
    (r : Request)
    → (resolve_existing q id reviewer tenant status s).0 ≡ ok r
    → (is_requester reviewer q.requested_by ≡ false)
      × (is_pending q.status ≡ true)
      × (resolve_existing q id reviewer tenant status s ≡ mark_resolved id reviewer tenant status s)
unfolding resolve_existing
resolve_existing-ok q id reviewer tenant status s r h = ground arith

-- What any call of `resolve` that succeeds has gone through.
pub resolve-Resolved :
    (id reviewer tenant : ℕ) (status : ApprovalStatus) (s : Session Tables) (r : Request)
    → (resolve id reviewer tenant status s).0 ≡ ok r
    → ((q : Request) × (find_request tenant id s ≡ some q)
        × (is_requester reviewer q.requested_by ≡ false)
        × (is_pending q.status ≡ true))
      × Resolved id reviewer tenant status s (resolve id reviewer tenant status s).1 r
unfolding resolve
resolve-Resolved id reviewer tenant status s r h =
    let next = λ (q : Request). resolve_existing q id reviewer tenant status in
    let (q, got, rest) = >>=-ok (get_for_resolve id tenant) next s r h in
    let (found, same, now) = get_for_resolve-ok id tenant s q got in
    let (other, waits, is_mark) =
      resolve_existing-ok q id reviewer tenant status (get_for_resolve id tenant s).1 r rest in
    let done =
      mark_resolved-ok id reviewer tenant status (get_for_resolve id tenant s).1 r
        (sym (ap (λ (x : Result Error Request × Session Tables). x.0) is_mark) ∙ rest) in
    let from = >>=-from (get_for_resolve id tenant) next s q got in
    (
      (q, found, other, waits),
      record {
        updated = done.updated;
        hit = rw same at done.hit;
        result = rw now at done.result;
        requests =
            ap (λ (x : Result Error Request × Session Tables). x.1.tables.requests) (from ∙ is_mark)
            ∙ rw (same, now) at done.requests;
      },
    )

-- A resolution that succeeds was given by somebody else than the requester, to a request that was
-- pending, and returns that request with the reviewer and the new status; whatever statements failed.
pub resolve-ok :
    (id reviewer tenant : ℕ) (status : ApprovalStatus) (s : Session Tables) (r : Request)
    → (resolve id reviewer tenant status s).0 ≡ ok r
    → (r.id ≡ id)
      × (r.tenant_id ≡ tenant)
      × (r.requested_by ≢ some reviewer)
      × (r.reviewed_by ≡ some reviewer)
      × (r.status ≡ status)
      × ((q : Request) × (find_request tenant id s ≡ some q)
          × (q.status ≡ ApprovalStatus.pending)
          × (q.requested_by ≢ some reviewer))
resolve-ok id reviewer tenant status s r h =
    let ((q, found, other, waits), done) = resolve-Resolved id reviewer tenant status s r h in
    let hit =
      first_where-holds (can_resolve tenant id reviewer) s.tables.requests done.updated done.hit in
    let same = done.result in
    (
      ground arith,
      ground arith,
      ground arith,
      ground arith,
      ground arith,
      (q, found, ground arith, ground arith),
    )

-- A request is resolved once: on the tables that a successful resolution to another status than pending
-- left, none succeeds, whoever reviews, whatever the resolution and whatever statements fail.
pub resolve_again :
    (id reviewer tenant : ℕ) (status : ApprovalStatus) (s : Session Tables) (r : Request)
    → (resolve id reviewer tenant status s).0 ≡ ok r
    → is_pending status ≡ false
    → (other : ℕ) (again : ApprovalStatus) (later : Session Tables) (r' : Request)
    → later.tables ≡ (resolve id reviewer tenant status s).1.tables
    → (resolve id other tenant again later).0 ≢ ok r'
resolve_again id reviewer tenant status s r h settled other again later r' e h' =
    let ((q, found, not_own, waits), done) = resolve-Resolved id reviewer tenant status s r h in
    let ((q', found', _, waits'), _) = resolve-Resolved id other tenant again later r' h' in
    let after =
      first_where-update_where (is_row tenant id) (can_resolve tenant id reviewer)
        (set_resolved reviewer status s.now) (λ x. refl) s.tables.requests in
    let hit = first_where-holds (is_row tenant id) s.tables.requests q found in
    let now_found : first_where (is_row tenant id) later.tables.requests ≡ some q' = found' in
    let moved : later.tables.requests
        ≡ update_where (can_resolve tenant id reviewer) (set_resolved reviewer status s.now)
            s.tables.requests =
      ap (λ (t : Tables). t.requests) e ∙ done.requests in
    let moved_found : first_where (is_row tenant id) (
          update_where (can_resolve tenant id reviewer) (set_resolved reviewer status s.now)
            s.tables.requests)
        ≡ some q' =
      rw moved at now_found in
    ground arith

-- The approval and its outbox row are not written together: where a pending request that holds an outbox
-- row is resolved by another than its requester, and of the statements the third alone fails, the caller
-- gets an error, the request is resolved, and no outbox row has changed.
pub resolve_half_done :
    (id reviewer tenant outbox_id : ℕ) (status : ApprovalStatus) (s : Session Tables) (q : Request)
    → find_request tenant id s ≡ some q
    → q.status ≡ ApprovalStatus.pending
    → q.requested_by ≢ some reviewer
    → q.channel_outbox_id ≡ some outbox_id
    → s.faults ≡ false ∷ false ∷ true ∷ []
    → let (answer, after) = resolve id reviewer tenant status s in
      (answer ≡ err statement_failed)
      × (after.tables.outbox ≡ s.tables.outbox)
      × (find_request tenant id after ≡ some (set_resolved reviewer status s.now q))
unfolding resolve get_for_resolve resolve_existing mark_resolved after_update update_linked
resolve_half_done id reviewer tenant outbox_id status s q found waits other link faults =
    let rows = s.tables.requests in
    let seen = first_where-holds (is_row tenant id) rows q found in
    let may : can_resolve tenant id reviewer q ≡ true = ground arith in
    let hit =
      first_where-narrow (is_row tenant id) (can_resolve tenant id reviewer) rows q
        (λ x miss. ground arith) may found in
    let after =
      first_where-update_where (is_row tenant id) (can_resolve tenant id reviewer)
        (set_resolved reviewer status s.now) (λ x. refl) rows in
    (ground arith, ground arith, ground arith)
