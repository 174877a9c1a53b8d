-- ===== src/Connectors/Actions/History.antt =====
-- Histories of a governed action: any sequence of store calls, with any failing statements.
use heimdall.Base.{
  ℕ, ◌≡◌, ◌≢◌, refl, sym, ap, subst, ◌⊎◌, inl, inr, Bool, none, some, List, [], ◌∷◌, All,
  All-trivial, arith, Option-cases,
}
use heimdall.Base.Session.{Session}
use heimdall.Base.Table.{first_where-append, first_where-update_where}
use heimdall.Database.{ActionStatus, GovernedAction, Tables}
use heimdall.Connectors.Actions.{
  CreateGovernedActionParams, is_row, can_update, set_status, create, update_status,
  inserted_action, mark_awaiting_approval, mark_approved, mark_denied, mark_executed, mark_failed,
}
use heimdall.Connectors.Actions.Transitions.{find_action, find_action-update_status}

pub data Call : Type 0 where
  creates : CreateGovernedActionParams → Call
  awaits : ℕ → ℕ → Call
  approves denies executes fails : ℕ → Call

-- A call leaves the session that it leaves, whether it returns an action or an error.
pub step : Session Tables → Call → Session Tables
step s (creates params) = (create params s).1
step s (awaits id approval_id) = (mark_awaiting_approval id approval_id s).1
step s (approves id) = (mark_approved id s).1
step s (denies id) = (mark_denied id s).1
step s (executes id) = (mark_executed id s).1
step s (fails id) = (mark_failed id s).1

pub run : Session Tables → List Call → Session Tables
unfolding step
run s [] = s
run s (c ∷ calls) = run (step s c) calls

-- The moves of the status of row `j` that a call may make.
abbrev Move : Call → ℕ → ActionStatus → ActionStatus → Type 0
Move (creates params) j a b = ⊥
Move (awaits id approval_id) j a b =
    (a ≡ ActionStatus.pending) × (b ≡ ActionStatus.awaiting_approval)
Move (approves id) j a b =
    (j ≡ id)
    × ((a ≡ ActionStatus.awaiting_approval) ⊎ (a ≡ ActionStatus.pending))
    × (b ≡ ActionStatus.approved)
Move (denies id) j a b =
    ((a ≡ ActionStatus.awaiting_approval) ⊎ (a ≡ ActionStatus.pending)) × (b ≡ ActionStatus.denied)
Move (executes id) j a b =
    ((a ≡ ActionStatus.approved) ⊎ (a ≡ ActionStatus.pending)) × (b ≡ ActionStatus.executed)
Move (fails id) j a b =
    ((a ≡ ActionStatus.pending)
      ⊎ (a ≡ ActionStatus.awaiting_approval)
      ⊎ (a ≡ ActionStatus.approved))
    × (b ≡ ActionStatus.failed)

find_action-persists :
    (id approval_id : ℕ) (next : ActionStatus) (allowed : ActionStatus → Bool) (s : Session Tables)
    (j : ℕ) (a : GovernedAction)
    → find_action j s ≡ some a
    → find_action j (update_status id approval_id next allowed s).1 ≢ none
unfolding update_status
find_action-persists id approval_id next allowed s j a before after = ground (
  arith,
  first_where-update_where (is_row s.tables.tenant j) (can_update s.tables.tenant id allowed)
      (set_status approval_id next s.now) (λ r. refl) s.tables.actions,
)

create-find_action :
    (params : CreateGovernedActionParams) (s : Session Tables) (j : ℕ) (a : GovernedAction)
    → find_action j s ≡ some a
    → find_action j (create params s).1 ≡ some a
unfolding create
create-find_action params s j a h = ground (
  arith,
  first_where-append (is_row s.tables.tenant j) s.tables.actions
      (inserted_action params s.tables.next_id s.now ∷ []) a h,
)

step-persists :
    (s : Session Tables) (c : Call) (j : ℕ) (a : GovernedAction)
    → find_action j s ≡ some a
    → find_action j (step s c) ≢ none
unfolding step mark_awaiting_approval mark_approved mark_denied mark_executed mark_failed
step-persists s (creates params) j a h = ground (arith, create-find_action params s j a)
step-persists s (awaits id approval_id) j a h = find_action-persists id approval_id _ _ s j a h
step-persists s (approves id) j a h = find_action-persists id 0 _ _ s j a h
step-persists s (denies id) j a h = find_action-persists id 0 _ _ s j a h
step-persists s (executes id) j a h = find_action-persists id 0 _ _ s j a h
step-persists s (fails id) j a h = find_action-persists id 0 _ _ s j a h

step-Move :
    (s : Session Tables) (c : Call) (j : ℕ) (a b : GovernedAction)
    → find_action j s ≡ some a
    → find_action j (step s c) ≡ some b
    → (b.status ≡ a.status) ⊎ Move c j a.status b.status
unfolding step mark_awaiting_approval mark_approved mark_denied mark_executed mark_failed
step-Move s (creates params) j a b h k = ground (arith, create-find_action params s j a)
step-Move s (awaits id approval_id) j a b h k =
    ground (arith, find_action-update_status id approval_id _ _ s j a b h k)
step-Move s (approves id) j a b h k = ground (arith, find_action-update_status id 0 _ _ s j a b h k)
step-Move s (denies id) j a b h k = ground (arith, find_action-update_status id 0 _ _ s j a b h k)
step-Move s (executes id) j a b h k = ground (arith, find_action-update_status id 0 _ _ s j a b h k)
step-Move s (fails id) j a b h k = ground (arith, find_action-update_status id 0 _ _ s j a b h k)

-- An invariant of the status of one row along a history.
module _ (P : ActionStatus → Type 0) (Q : Call → Type 0) (j : ℕ)
    (keep : (c : Call) (x y : ActionStatus) → Q c → P x → Move c j x y → P y) where
  step-keeps :
      (s : Session Tables) (c : Call) (a : GovernedAction)
      → Q c
      → find_action j s ≡ some a
      → P a.status
      → (b : GovernedAction) × (find_action j (step s c) ≡ some b) × P b.status
  step-keeps s c a q h p = elim (Option-cases (find_action j (step s c))) [
    | inl gone ↦ absurd (step-persists s c j a h gone)
    | inr (b, e) ↦ elim (step-Move s c j a b h e) [
      | inl same ↦ (b, e, subst P (sym same) p)
      | inr move ↦ (b, e, keep c a.status b.status q p move)
    ]
  ]

  run-keeps :
      (s : Session Tables) (calls : List Call) (a : GovernedAction)
      → All Q calls
      → find_action j s ≡ some a
      → P a.status
      → (b : GovernedAction) × (find_action j (run s calls) ≡ some b) × P b.status
  unfolding run
  run-keeps s [] a q h p = (a, h, p)
  run-keeps s (c ∷ calls) a q h p =
      let (b, e, r) = step-keeps s c a q.0 h p in run-keeps (step s c) calls b q.1 e r

abbrev pub IsFinal : ActionStatus → Type 0
IsFinal x = (x ≡ ActionStatus.denied) ⊎ (x ≡ ActionStatus.executed) ⊎ (x ≡ ActionStatus.failed)

final-keeps :
    (f : ActionStatus)
    → IsFinal f
    → (j : ℕ) (c : Call) (x y : ActionStatus) → Unit {0}
    → x ≡ f
    → Move c j x y
    → y ≡ f
final-keeps f final j (creates params) x y q e m = absurd m
final-keeps f final j (awaits id approval_id) x y q e m = ground arith
final-keeps f final j _ x y q e m = ground arith

-- Denied, executed and failed are final: no sequence of calls moves such an action, or loses it.
pub run-final :
    (s : Session Tables) (calls : List Call) (j : ℕ) (a : GovernedAction)
    → find_action j s ≡ some a
    → IsFinal a.status
    → (b : GovernedAction) × (find_action j (run s calls) ≡ some b) × (b.status ≡ a.status)
run-final s calls j a h final =
    run-keeps (λ x. x ≡ a.status) (λ c. Unit) j (final-keeps a.status final j) s calls a
      (All-trivial calls) h refl

abbrev Unapproved : ActionStatus → Type 0
Unapproved x =
    (x ≡ ActionStatus.awaiting_approval) ⊎ (x ≡ ActionStatus.denied) ⊎ (x ≡ ActionStatus.failed)

Unapproved-keeps :
    (j : ℕ) (c : Call) (x y : ActionStatus)
    → c ≢ approves j
    → Unapproved x
    → Move c j x y
    → Unapproved y
Unapproved-keeps j (creates params) x y q p m = absurd m
Unapproved-keeps j (approves id) x y q p m = absurd (q (ap approves (sym m.0)))
Unapproved-keeps j _ x y q p m = ground arith

-- An action that waits for approval is executed by no sequence of calls that does not approve it.
pub run-needs_approval :
    (s : Session Tables) (calls : List Call) (j : ℕ) (a : GovernedAction)
    → find_action j s ≡ some a
    → a.status ≡ ActionStatus.awaiting_approval
    → All (λ c. c ≢ approves j) calls
    → (b : GovernedAction) × (find_action j (run s calls) ≡ some b)
      × (b.status ≢ ActionStatus.approved)
      × (b.status ≢ ActionStatus.executed)
run-needs_approval s calls j a h waits unapproved =
    let (b, e, p) =
      run-keeps Unapproved (λ c. c ≢ approves j) j (Unapproved-keeps j) s calls a unapproved h
        (inl waits) in
    (b, e, ground arith, ground arith)
