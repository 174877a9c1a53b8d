-- ===== src/Proxy/Resolver/Rows.antt =====
-- internal/connectors/actions.go under internal/proxy/connector_action_resumer.go: the row of an action
-- after an allowed change, and after its review.
use heimdall.Base.{
  ℕ, ◌≡◌, ◌≢◌, refl, sym, ◌∙◌, subst, Bool, true, false, ◌||◌, some, List, [], ◌∷◌, All, arith,
  Bool-cases, inl, inr, if◌then◌else◌,
}
use heimdall.Base.Result.{ok}
use heimdall.Base.Session.{Session}
use heimdall.Base.Table.{
  first_where, update_where, first_where-holds, first_where-update_where, All-update_where,
}
use heimdall.Database.{ActionStatus, GovernedAction, Tables}
use heimdall.Database.Tenant.{set_config, with_reset, with_tenant_connection}
use heimdall.Connectors.Actions.{
  is_row, can_update, set_status, update_status, get_by_id, mark_approved, mark_denied, is_awaiting,
  is_pending,
}
use heimdall.Connectors.Actions.Transitions.{IsKeyed, first_where-can_update}
use heimdall.Proxy.Resolver.{review}

-- The tenant has this row, and no two rows have one id.
pub record Has (tenant id : ℕ) (t : Tables) (a : GovernedAction) : Type 0 where
  pub keyed : IsKeyed t.actions
  pub found : first_where (is_row tenant id) t.actions ≡ some a

-- A session in which no statement fails.
abbrev pub calm : ℕ → Tables → Session Tables
calm now t = record { tables = t; now = now; faults = [] }

keep_ids :
    (tenant id approval_id now : ℕ) (next : ActionStatus) (allowed : ActionStatus → Bool) (i : ℕ)
    (rows : List GovernedAction)
    → All (λ b. b.id ≢ i) rows
    → All
        (λ b. b.id ≢ i)
        (update_where (can_update tenant id allowed) (set_status approval_id next now) rows)
keep_ids tenant id approval_id now next allowed i rows h =
    All-update_where (λ b. b.id ≢ i) (can_update tenant id allowed)
      (set_status approval_id next now) (λ r differs hit. differs) rows h

same_id :
    (b : Bool) (approval_id now : ℕ) (next : ActionStatus) (a : GovernedAction)
    → (if b then set_status approval_id next now a else a).id ≡ a.id
same_id true approval_id now next a = refl
same_id false approval_id now next a = refl

IsKeyed-update :
    (tenant id approval_id now : ℕ) (next : ActionStatus) (allowed : ActionStatus → Bool)
    (rows : List GovernedAction)
    → IsKeyed rows
    → IsKeyed (update_where (can_update tenant id allowed) (set_status approval_id next now) rows)
IsKeyed-update tenant id approval_id now next allowed [] k = tt
IsKeyed-update tenant id approval_id now next allowed (a ∷ rows) (fresh, k) = (
  keep_ids tenant id approval_id now next allowed _ rows (
      subst (λ i. All (λ b. b.id ≢ i) rows)
        (sym (same_id (can_update tenant id allowed a) approval_id now next a)) fresh),
  IsKeyed-update tenant id approval_id now next allowed rows k,
)

abbrev pub updated : ℕ → ℕ → ℕ → ActionStatus → (ActionStatus → Bool) → ℕ → Tables → Tables
updated tenant id approval_id next allowed now t = record t {
  tenant = 0;
  actions = update_where (can_update tenant id allowed) (set_status approval_id next now) t.actions;
}

pub Has-updated :
    (tenant id approval_id now : ℕ) (next : ActionStatus) (allowed : ActionStatus → Bool)
    (t : Tables) (a : GovernedAction)
    → Has tenant id t a
    → allowed a.status ≡ true
    → Has tenant id
        (updated tenant id approval_id next allowed now t)
        (set_status approval_id next now a)
Has-updated tenant id approval_id now next allowed t a h good =
    let mine : can_update tenant id allowed a ≡ true =
      ground (arith, good, first_where-holds (is_row tenant id) t.actions a h.found) in
    record {
      keyed = IsKeyed-update tenant id approval_id now next allowed t.actions h.keyed;
      found =
          first_where-update_where (is_row tenant id) (can_update tenant id allowed)
            (set_status approval_id next now) (λ r. refl) t.actions
          ∙ rw (h.found, mine) refl;
    }

-- An allowed change of the row in a tenant's connection.
pub update_status-allowed :
    (tenant id approval_id now : ℕ) (next : ActionStatus) (allowed : ActionStatus → Bool)
    (t : Tables) (a : GovernedAction)
    → Has tenant id t a
    → allowed a.status ≡ true
    → with_tenant_connection tenant (update_status id approval_id next allowed) (calm now t) ≡ (
      ok (set_status approval_id next now a),
      calm now (updated tenant id approval_id next allowed now t),
    )
unfolding with_tenant_connection with_reset set_config update_status
update_status-allowed tenant id approval_id now next allowed t a h good =
    let hit : first_where (can_update tenant id allowed) t.actions ≡ some a =
      rw good at (first_where-can_update tenant id allowed t.actions h.keyed a h.found) in
    rw hit refl

pub id-found : (tenant id : ℕ) (t : Tables) (a : GovernedAction) → Has tenant id t a → a.id ≡ id
id-found tenant id t a h = ground (arith, first_where-holds (is_row tenant id) t.actions a h.found)

abbrev pub reviewed_to : Bool → ActionStatus
reviewed_to true = ActionStatus.approved
reviewed_to false = ActionStatus.denied

abbrev pub Reviewed : ℕ → ℕ → Bool → Tables → GovernedAction → ℕ → Type 0
Reviewed tenant now approved t a id =
    with_tenant_connection tenant (review id approved) (calm now t) ≡ (
      ok (set_status 0 (reviewed_to approved) now a),
      calm now
          (updated tenant id 0 (reviewed_to approved) (λ s. is_awaiting s || is_pending s) now t),
    )

review_own-ok :
    (tenant now : ℕ) (approved : Bool) (t : Tables) (a : GovernedAction)
    → Has tenant a.id t a
    → (is_awaiting a.status || is_pending a.status) ≡ true
    → Reviewed tenant now approved t a a.id
unfolding with_tenant_connection with_reset set_config update_status review get_by_id mark_approved
    mark_denied
review_own-ok tenant now approved t a h waits =
    let hit : first_where (can_update tenant a.id (λ s. is_awaiting s || is_pending s)) t.actions
        ≡ some a =
      rw waits at (
        first_where-can_update tenant a.id (λ s. is_awaiting s || is_pending s) t.actions h.keyed a
          h.found) in
    elim (Bool-cases approved) [
      | inl approves ↦ rw (approves, h.found, hit) refl
      | inr denies ↦ rw (denies, h.found, hit) refl
    ]

-- The review of an action that waits or is pending.
pub review-ok :
    (tenant id now : ℕ) (approved : Bool) (t : Tables) (a : GovernedAction)
    → Has tenant id t a
    → (is_awaiting a.status || is_pending a.status) ≡ true
    → Reviewed tenant now approved t a id
review-ok tenant id now approved t a h waits =
    let is = id-found tenant id t a h in
    subst (Reviewed tenant now approved t a) is
      (review_own-ok tenant now approved t a (subst (λ i. Has tenant i t a) (sym is) h) waits)
