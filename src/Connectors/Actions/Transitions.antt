-- ===== src/Connectors/Actions/Transitions.antt =====
-- What one status change of internal/connectors/actions.go does, on every branch.
use heimdall.Base.{
  ℕ, ◌≡◌, ◌≢◌, refl, subst, ◌⊎◌, inl, inr, Bool, true, false, Option, none, some, List, [], ◌∷◌,
  All, arith, Bool-cases, Option-cases, if◌then◌else◌,
}
use heimdall.Base.Result.{ok, err}
use heimdall.Base.Session.{Session}
use heimdall.Base.Table.{
  first_where, update_where-none, first_where-update_where, first_where-holds,
}
use heimdall.Database.{
  ActionStatus, GovernedAction, Tables, Error, action_not_found, action_invalid_transition,
}
use heimdall.Connectors.Actions.{is_row, can_update, set_status, update_status}

-- The primary key: no two rows have one id.
abbrev pub IsKeyed : List GovernedAction → Type 0
IsKeyed [] = Unit
IsKeyed (a ∷ rows) = All (λ b. b.id ≢ a.id) rows × IsKeyed rows

-- The row that the tenant of the session sees under an id.
abbrev pub find_action : ℕ → Session Tables → Option GovernedAction
find_action id s = first_where (is_row s.tables.tenant id) s.tables.actions

none_beyond :
    (tenant id : ℕ) (allowed : ActionStatus → Bool) (rows : List GovernedAction)
    → All (λ b. b.id ≢ id) rows
    → first_where (can_update tenant id allowed) rows ≡ none
none_beyond tenant id allowed [] h = refl
none_beyond tenant id allowed (a ∷ rows) h =
    ground (arith, h.0, none_beyond tenant id allowed rows h.1)

-- With distinct ids the UPDATE meets the row that `GetByID` finds, or none.
pub first_where-can_update :
    (tenant id : ℕ) (allowed : ActionStatus → Bool) (rows : List GovernedAction)
    → IsKeyed rows
    → (a : GovernedAction) → first_where (is_row tenant id) rows ≡ some a
    → first_where (can_update tenant id allowed) rows ≡ (if allowed a.status then some a else none)
first_where-can_update tenant id allowed [] k a h = absurd (ground arith)
first_where-can_update tenant id allowed (b ∷ rows) k a h = elim (Bool-cases (is_row tenant id b)) [
  | inr miss ↦ ground (arith, first_where-can_update tenant id allowed rows k.1 a)
  | inl hit ↦
      let same : b ≡ a = ground arith in
      let id_is : b.id ≡ id = ground arith in
      let beyond : first_where (can_update tenant id allowed) rows ≡ none =
        subst (λ i. first_where (can_update tenant i allowed) rows ≡ none) id_is
          (none_beyond tenant b.id allowed rows k.0) in
      subst
        (λ x.
          first_where (can_update tenant id allowed) (b ∷ rows)
          ≡ (if allowed x.status then some x else none))
        same (ground arith)
]

first_where-can_update-none :
    (tenant id : ℕ) (allowed : ActionStatus → Bool) (rows : List GovernedAction)
    → first_where (is_row tenant id) rows ≡ none
    → first_where (can_update tenant id allowed) rows ≡ none
first_where-can_update-none tenant id allowed [] h = refl
first_where-can_update-none tenant id allowed (b ∷ rows) h =
    ground (arith, first_where-can_update-none tenant id allowed rows)

-- Every branch of a status change, where no statement fails and ids are distinct: a missing row and a
-- row whose status is not among those allowed are told apart and change nothing; otherwise the row gets
-- the new status, is returned, and is what a later lookup finds.
pub update_status_branches :
    (id approval_id : ℕ) (next : ActionStatus) (allowed : ActionStatus → Bool) (s : Session Tables)
    → s.faults ≡ []
    → IsKeyed s.tables.actions
    → ((find_action id s ≡ none)
        × (update_status id approval_id next allowed s ≡ (err action_not_found, s)))
      ⊎ ((a : GovernedAction) × (find_action id s ≡ some a)
          × (allowed a.status ≡ false)
          × (update_status id approval_id next allowed s ≡ (err action_invalid_transition, s)))
      ⊎ ((a : GovernedAction) × (find_action id s ≡ some a)
          × (allowed a.status ≡ true)
          × ((update_status id approval_id next allowed s).0
              ≡ ok (set_status approval_id next s.now a))
          × (find_action id (update_status id approval_id next allowed s).1
              ≡ some (set_status approval_id next s.now a)))
unfolding update_status
update_status_branches id approval_id next allowed s calm keyed =
    elim (Option-cases (find_action id s)) [
      | inl missing ↦ inl (
        missing,
        ground (
          arith,
          first_where-can_update-none s.tables.tenant id allowed s.tables.actions missing,
          update_where-none (can_update s.tables.tenant id allowed)
              (set_status approval_id next s.now) s.tables.actions,
        ),
      )
      | inr (a, found) ↦ elim (Bool-cases (allowed a.status)) [
        | inr bad ↦ inr (
            inl (
              a,
              found,
              bad,
              ground (
                arith,
                first_where-can_update s.tables.tenant id allowed s.tables.actions keyed a found,
                update_where-none (can_update s.tables.tenant id allowed)
                    (set_status approval_id next s.now) s.tables.actions,
              ),
            ))
        | inl good ↦ inr (
            inr (
              a,
              found,
              good,
              ground (
                arith,
                first_where-can_update s.tables.tenant id allowed s.tables.actions keyed a found,
              ),
              ground (
                arith,
                first_where-can_update s.tables.tenant id allowed s.tables.actions keyed a found,
                first_where-update_where (is_row s.tables.tenant id)
                    (can_update s.tables.tenant id allowed) (set_status approval_id next s.now)
                    (λ r. refl) s.tables.actions,
                first_where-holds (is_row s.tables.tenant id) s.tables.actions a found,
              ),
            ))
      ]
    ]

-- A call that returns an error has changed no table, whatever statements failed.
pub update_status-error :
    (id approval_id : ℕ) (next : ActionStatus) (allowed : ActionStatus → Bool) (s : Session Tables)
    (e : Error)
    → (update_status id approval_id next allowed s).0 ≡ err e
    → (update_status id approval_id next allowed s).1.tables ≡ s.tables
unfolding update_status
update_status-error id approval_id next allowed s e h = ground (
  arith,
  update_where-none (can_update s.tables.tenant id allowed) (set_status approval_id next s.now)
      s.tables.actions,
)

-- The row of any id after a status change, whatever statements failed: as it was, or with the new
-- status, and that only for the id of the call and from an allowed status.
pub find_action-update_status :
    (id approval_id : ℕ) (next : ActionStatus) (allowed : ActionStatus → Bool) (s : Session Tables)
    (j : ℕ) (a b : GovernedAction)
    → find_action j s ≡ some a
    → find_action j (update_status id approval_id next allowed s).1 ≡ some b
    → (b.status ≡ a.status) ⊎ ((j ≡ id) × (allowed a.status ≡ true) × (b.status ≡ next))
unfolding update_status
find_action-update_status id approval_id next allowed s j a b before after = ground (
  arith,
  first_where-update_where (is_row s.tables.tenant j) (can_update s.tables.tenant id allowed)
      (set_status approval_id next s.now) (λ r. refl) s.tables.actions,
  first_where-holds (is_row s.tables.tenant j) s.tables.actions a before,
)

-- What a status change that succeeds returns: a row that the search met, with the new status.
pub update_status-ok :
    (id approval_id : ℕ) (next : ActionStatus) (allowed : ActionStatus → Bool) (s : Session Tables)
    (a : GovernedAction)
    → (update_status id approval_id next allowed s).0 ≡ ok a
    → (u : GovernedAction) × (can_update s.tables.tenant id allowed u ≡ true)
      × (a ≡ set_status approval_id next s.now u)
unfolding update_status
update_status-ok id approval_id next allowed s a h =
    elim (Option-cases (first_where (can_update s.tables.tenant id allowed) s.tables.actions)) [
      | inl missed ↦ absurd (ground arith)
      | inr (u, hit) ↦ (
        u,
        first_where-holds (can_update s.tables.tenant id allowed) s.tables.actions u hit,
        ground arith,
      )
    ]
