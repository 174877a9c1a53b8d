-- ===== src/Channels/Outbox.antt =====
-- internal/channels/store.go, the outbox: jobs to send, and the statements that move them. A limit
-- or a count below 1 is 0 here. Rows that another connection has locked are not modelled.
pub mod Enqueue
pub mod Updates
pub mod Due
pub mod Claim
pub mod History
use heimdall.Base.{
  ℕ, zero, suc, ◌+◌, ◌*◌, String, Bool, true, false, ◌&&◌, Option, none, some, List, [], ◌∷◌, ◌++◌,
  map, take, keep_if, count_if, any, ltb, leb, eqb, ◌==◌, if◌then◌else◌,
}
use heimdall.Base.Text.{trim_space}
use heimdall.Base.Result.{ok, err}
use heimdall.Base.Session.{Session, Exec, pure, raise, statement, ◌>>=◌}
use heimdall.Base.Table.{update_where, first_where}
use heimdall.Database.{
  OutboxStatus, ChannelOutbox, Tables, Error, statement_failed, outbox_not_found,
  next_attempt_required, message_not_found, message_id_invalid, platform_empty, identity_empty,
  payload_required, payload_invalid,
}

abbrev pub is_status : OutboxStatus → OutboxStatus → Bool
is_status OutboxStatus.pending OutboxStatus.pending = true
is_status OutboxStatus.sending OutboxStatus.sending = true
is_status OutboxStatus.pending_approval OutboxStatus.pending_approval = true
is_status OutboxStatus.sent OutboxStatus.sent = true
is_status OutboxStatus.dead OutboxStatus.dead = true
is_status _ _ = false

-- `WHERE tenant_id = current_setting(…) AND id = $1 AND status = …`
abbrev pub is_job : OutboxStatus → ℕ → ℕ → ChannelOutbox → Bool
is_job status id tenant o = eqb o.tenant_id tenant && eqb o.id id && is_status o.status status

-- `RowsAffected() == 0`
abbrev pub or_not_found : ℕ → Exec Error Tables (Unit {0})
or_not_found affected = if eqb affected 0 then raise outbox_not_found else pure tt

abbrev pub job_update :
    OutboxStatus → (ℕ → ChannelOutbox → ChannelOutbox) → ℕ → ℕ → Tables → ℕ × Tables
job_update status change id now t = (
  count_if (is_job status id t.tenant) t.outbox,
  record t { outbox = update_where (is_job status id t.tenant) (change now) t.outbox },
)

-- The UPDATE of one job, which has to be in the given status.
unfoldable pub update_job :
    OutboxStatus → (ℕ → ChannelOutbox → ChannelOutbox) → ℕ → Exec Error Tables (Unit {0})
update_job status change id = do
  affected ← statement statement_failed (job_update status change id)
  or_not_found affected

abbrev pub set_requeued : ℕ → ChannelOutbox → ChannelOutbox
set_requeued now o = record o {
  status = OutboxStatus.pending;
  next_attempt_at = now;
  last_error = none;
  locked_at = none;
  sent_at = none;
  updated_at = now;
}

unfoldable pub requeue_outbox_dead : ℕ → Exec Error Tables (Unit {0})
requeue_outbox_dead id = update_job OutboxStatus.dead set_requeued id

abbrev pub set_sent : ℕ → ChannelOutbox → ChannelOutbox
set_sent now o = record o {
  status = OutboxStatus.sent;
  sent_at = some now;
  last_error = none;
  locked_at = none;
  updated_at = now;
}

unfoldable pub mark_outbox_sent : ℕ → Exec Error Tables (Unit {0})
mark_outbox_sent id = update_job OutboxStatus.sending set_sent id

abbrev pub set_retry : ℕ → String → ℕ → ChannelOutbox → ChannelOutbox
set_retry next_attempt last_error now o = record o {
  status = OutboxStatus.pending;
  attempt_count = suc o.attempt_count;
  next_attempt_at = next_attempt;
  last_error = some (trim_space last_error);
  sent_at = none;
  locked_at = none;
  updated_at = now;
}

unfoldable pub mark_outbox_retry : ℕ → ℕ → String → Exec Error Tables (Unit {0})
mark_outbox_retry id next_attempt last_error =
    if eqb next_attempt 0
    then raise next_attempt_required
    else update_job OutboxStatus.sending (set_retry next_attempt last_error) id

abbrev pub set_dead : String → ℕ → ChannelOutbox → ChannelOutbox
set_dead last_error now o = record o {
  status = OutboxStatus.dead;
  attempt_count = suc o.attempt_count;
  last_error = some (trim_space last_error);
  locked_at = none;
  updated_at = now;
}

unfoldable pub mark_outbox_dead : ℕ → String → Exec Error Tables (Unit {0})
mark_outbox_dead id last_error = update_job OutboxStatus.sending (set_dead last_error) id

abbrev pub set_pending_approval : String → ℕ → ChannelOutbox → ChannelOutbox
set_pending_approval last_error now o = record o {
  status = OutboxStatus.pending_approval;
  last_error = some (trim_space last_error);
  locked_at = none;
  updated_at = now;
}

unfoldable pub mark_outbox_pending_approval : ℕ → String → Exec Error Tables (Unit {0})
mark_outbox_pending_approval id last_error =
    update_job OutboxStatus.sending (set_pending_approval last_error) id

-- `ORDER BY`, by insertion.
abbrev pub insert :
    (ChannelOutbox → ChannelOutbox → Bool) → ChannelOutbox → List ChannelOutbox → List ChannelOutbox
insert before o [] = o ∷ []
insert before o (x ∷ xs) =
    let rest = insert before o xs in if before o x then o ∷ x ∷ xs else x ∷ rest

abbrev pub order_by :
    (ChannelOutbox → ChannelOutbox → Bool) → List ChannelOutbox → List ChannelOutbox
order_by before [] = []
order_by before (o ∷ os) = insert before o (order_by before os)

abbrev pub has_id : List ChannelOutbox → ℕ → Bool
has_id rows id = any (λ (o : ChannelOutbox). eqb o.id id) rows

-- `LIMIT $3`, where the caller's limit is 1 at least.
abbrev pub or_one : ℕ → ℕ
or_one zero = 1
or_one (suc n) = suc n

abbrev pub picked :
    (ChannelOutbox → Bool)
    → (ChannelOutbox → ChannelOutbox → Bool)
    → ℕ
    → List ChannelOutbox
    → List ChannelOutbox
picked test before limit rows = take (or_one limit) (order_by before (keep_if test rows))

-- `UPDATE … FROM picked WHERE outbox.id = picked.id RETURNING …`, where the id is the primary key.
abbrev pub is_picked : (ChannelOutbox → Bool) → List ChannelOutbox → ChannelOutbox → Bool
is_picked test rows o = test o && has_id rows o.id

abbrev pub update_picked :
    (ChannelOutbox → Bool)
    → (ChannelOutbox → ChannelOutbox → Bool)
    → ℕ
    → (ChannelOutbox → ChannelOutbox)
    → Tables
    → List ChannelOutbox × Tables
update_picked test before limit change t =
    let rows = picked test before limit t.outbox in
    (map change rows, record t { outbox = update_where (is_picked test rows) change t.outbox })

abbrev pub is_due : ℕ → ℕ → ChannelOutbox → Bool
is_due now tenant o =
    eqb o.tenant_id tenant && is_status o.status OutboxStatus.pending && leb o.next_attempt_at now

abbrev pub before_due : ChannelOutbox → ChannelOutbox → Bool
before_due a b =
    if eqb a.next_attempt_at b.next_attempt_at
    then leb a.created_at b.created_at
    else ltb a.next_attempt_at b.next_attempt_at

abbrev pub set_sending : ℕ → ChannelOutbox → ChannelOutbox
set_sending now o = record o {
  status = OutboxStatus.sending;
  locked_at = some now;
  updated_at = now;
}

-- The zero time is 0.
abbrev pub or_time : ℕ → ℕ → ℕ
or_time zero clock = clock
or_time (suc n) clock = suc n

unfoldable pub claim_pending_outbox : ℕ → ℕ → Exec Error Tables (List ChannelOutbox)
claim_pending_outbox now limit = statement statement_failed λ clock t.
    update_picked (is_due (or_time now clock) t.tenant) before_due limit (set_sending clock) t

abbrev is_before : ℕ → Option ℕ → Bool
is_before stale_before none = false
is_before stale_before (some locked_at) = ltb locked_at stale_before

abbrev pub is_stale : ℕ → ℕ → ChannelOutbox → Bool
is_stale stale_before tenant o =
    eqb o.tenant_id tenant
    && is_status o.status OutboxStatus.sending
    && is_before stale_before o.locked_at

abbrev locked_before : Option ℕ → Option ℕ → Bool
locked_before (some a) (some b) = leb a b
locked_before _ _ = true

abbrev pub before_stale : ChannelOutbox → ChannelOutbox → Bool
before_stale a b = locked_before a.locked_at b.locked_at

abbrev pub set_recovered : ℕ → ChannelOutbox → ChannelOutbox
set_recovered now o = record o { status = OutboxStatus.pending; locked_at = none; updated_at = now }

unfoldable pub recover_stale_sending : ℕ → ℕ → Exec Error Tables (List ChannelOutbox)
recover_stale_sending stale_before limit = statement statement_failed λ clock t.
    update_picked (is_stale (or_time stale_before clock) t.tenant) before_stale limit
      (set_recovered clock) t
