-- ===== src/Channels/Outbox/Claim.antt =====
-- What `ClaimPendingOutbox` hands out.
use mathlib.Core.List.{Mem, mem-cons_self, mem-cons_of_mem}
use heimdall.Base.{
  ℕ, zero, suc, ◌≤◌, ◌≡◌, refl, Bool, some, List, [], ◌∷◌, arith, map, take, keep_if, length, true,
  All, All-imp, All-Mem, length-map, eqb_refl,
}
use heimdall.Base.Result.{ok}
use heimdall.Base.Session.{Session, statement-ok}
use heimdall.Base.Table.{update_where}
use heimdall.Database.{OutboxStatus, ChannelOutbox, Tables, statement_failed}
use heimdall.Channels.Outbox.{
  or_one, or_time, picked, is_due, before_due, set_sending, has_id, is_picked, update_picked,
  order_by, claim_pending_outbox,
}
use heimdall.Channels.Outbox.Due.{All-picked}

length-take : (n : ℕ) (rows : List ChannelOutbox) → length (take n rows) ≤ n
length-take zero rows = omega arith
length-take (suc n) [] = omega arith
length-take (suc n) (o ∷ rows) = omega (arith, length-take n rows)

-- The row `o` is a job of the tenant that waits for its turn, and its turn has come.
abbrev pub IsDue : ℕ → ℕ → ChannelOutbox → Type 0
IsDue now tenant o =
    (o.status ≡ OutboxStatus.pending) × (o.tenant_id ≡ tenant) × (o.next_attempt_at ≤ now)

-- A job that is handed out was a row that is due, and the table now has it as it is handed out: marked as
-- being sent and locked at the time of the database, else as it was.
abbrev pub IsClaimed : ℕ → ℕ → ℕ → List ChannelOutbox → List ChannelOutbox → ChannelOutbox → Type 0
IsClaimed now tenant clock before after job =
    (o : ChannelOutbox) × Mem o before
    × IsDue now tenant o
    × (job ≡ record o { status = OutboxStatus.sending; locked_at = some clock; updated_at = clock })
    × Mem job after

-- A row that is changed is in the table as changed.
All-changed :
    (p : ChannelOutbox → Bool) (f : ChannelOutbox → ChannelOutbox) (rows : List ChannelOutbox)
    → All (λ o. p o ≡ true → Mem (f o) (update_where p f rows)) rows
All-changed p f [] = tt
All-changed p f (o ∷ rows) = (
  (λ hit. rw hit mem-cons_self),
  All-imp (λ x there hit. mem-cons_of_mem _ (there hit)) rows (All-changed p f rows),
)

All-has_id : (rows : List ChannelOutbox) → All (λ o. has_id rows o.id ≡ true) rows
All-has_id [] = tt
All-has_id (o ∷ rows) =
    (ground (arith, eqb_refl o.id), All-imp (λ x own. ground (arith, own)) rows (All-has_id rows))

All-both :
    (P Q : ChannelOutbox → Type 0) (rows : List ChannelOutbox)
    → All P rows
    → All Q rows
    → All (λ o. P o × Q o) rows
All-both P Q [] h k = tt
All-both P Q (o ∷ rows) (h, more) (k, others) = ((h, k), All-both P Q rows more others)

module _ (time tenant clock : ℕ) (before after : List ChannelOutbox)
    (chosen : List ChannelOutbox) where
  -- What is known of a row that is picked.
  abbrev IsPicked : ChannelOutbox → Type 0
  IsPicked o =
      Mem o before
      × (is_picked (is_due time tenant) chosen o ≡ true → Mem (set_sending clock o) after)

  set_sending-IsClaimed :
      (o : ChannelOutbox)
      → IsPicked o
      → is_due time tenant o ≡ true
      → has_id chosen o.id ≡ true
      → IsClaimed time tenant clock before after (set_sending clock o)
  set_sending-IsClaimed o (there, written) due own = (
    o,
    there,
    (ground (arith, due), ground (arith, due), ground (arith, due)),
    refl,
    written (rw (due, own) refl),
  )

  all-IsClaimed :
      (rows : List ChannelOutbox)
      → All (λ o. IsPicked o × (is_due time tenant o ≡ true)) rows
      → All (λ o. has_id chosen o.id ≡ true) rows
      → All (IsClaimed time tenant clock before after) (map (set_sending clock) rows)
  all-IsClaimed [] h own = tt
  all-IsClaimed (o ∷ rows) ((picked_so, due), more) (mine, others) =
      (set_sending-IsClaimed o picked_so due mine, all-IsClaimed rows more others)

-- A claim that succeeds hands out at most as many jobs as the limit says, one at least being asked for.
-- Each was a pending row of the tenant of the connection, due by the given time, and is in the table after
-- the claim as it is handed out: marked as being sent, and locked.
pub claim_pending_outbox-ok :
    (now limit : ℕ) (s : Session Tables) (jobs : List ChannelOutbox)
    → (claim_pending_outbox now limit s).0 ≡ ok jobs
    → let after = (claim_pending_outbox now limit s).1.tables.outbox in
      (length jobs ≤ or_one limit)
      × All (IsClaimed (or_time now s.now) s.tables.tenant s.now s.tables.outbox after) jobs
unfolding claim_pending_outbox
claim_pending_outbox-ok now limit s jobs h =
    let time = or_time now s.now in
    let test = is_due time s.tables.tenant in
    let before = s.tables.outbox in
    let rows = picked test before_due limit before in
    let after = update_where (is_picked test rows) (set_sending s.now) before in
    let claim = λ (clock : ℕ) (t : Tables).
      update_picked (is_due (or_time now clock) t.tenant) before_due limit (set_sending clock) t in
    let (answer, tables, _) = statement-ok statement_failed claim s jobs h in
    let each =
      All-both _ _ before (All-Mem before)
        (All-changed (is_picked test rows) (set_sending s.now) before) in
    let due_rows =
      All-picked (IsPicked time s.tables.tenant s.now before after rows) test before_due limit
        before each in
    let all =
      all-IsClaimed time s.tables.tenant s.now before after rows rows due_rows (All-has_id rows) in
    let few : length (map (set_sending s.now) rows) ≤ or_one limit = ground (
      arith,
      length-map rows (set_sending s.now),
      length-take (or_one limit) (order_by before_due (keep_if test before)),
    ) in
    rw (answer, tables) (few, all)
