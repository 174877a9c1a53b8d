-- ===== src/Channels/Outbox/History.antt =====
-- The outbox as a state machine: any sequence of the calls that insert its jobs one by one and move them.
-- `RecoverDispatchFailuresToOutbox`, which only inserts, is not among them.
use heimdall.Base.{
  ℕ, ◌≡◌, refl, ap, ◌∙◌, Bool, false, Option, none, some, List, [], ◌∷◌, String, ◌==◌, eqb, arith,
  Bool-cases, inl, inr,
}
use mathlib.Core.Option
use heimdall.Base.Text.{trim_space}
use heimdall.Base.Session.{Session}
use heimdall.Base.Session.Keeps.{
  Keeps, Keeps-statement, Keeps-pure, Keeps-raise, Keeps-bind, Keeps-if,
}
use heimdall.Base.Table.{
  update_row, update_where, first_where, first_where-update_where, first_where-append,
}
use heimdall.Database.{OutboxStatus, ChannelOutbox, Tables}
use heimdall.Channels.Outbox.{
  is_status, is_job, update_job, set_requeued, set_sent, set_retry, set_dead, set_pending_approval,
  set_sending, set_recovered, is_due, is_stale, is_picked, picked, before_due, before_stale,
  or_time, requeue_outbox_dead, mark_outbox_sent, mark_outbox_retry, mark_outbox_dead,
  mark_outbox_pending_approval, claim_pending_outbox, recover_stale_sending,
}
use heimdall.Channels.Outbox.Enqueue.{
  EnqueueOutboundParams, enqueue_outbound, enqueue_message, insert_outbound, insert_job,
  or_no_message, inserted_job, or_five, has_message,
}
use heimdall.Channels.Outbox.Updates.{update_job-Keeps}

pub data Call : Type 0 where
  requeue sent : ℕ → Call
  retry : ℕ → ℕ → String → Call
  dead pending_approval : ℕ → String → Call
  claim recover : ℕ → ℕ → Call
  enqueue : EnqueueOutboundParams → Call

module _ (parse : String → Option ℕ) (valid : String → Bool) (to_lower : String → String) where
  unfoldable pub step : Call → Session Tables → Session Tables
  step (requeue id) s = (requeue_outbox_dead id s).1
  step (sent id) s = (mark_outbox_sent id s).1
  step (retry id next text) s = (mark_outbox_retry id next text s).1
  step (dead id text) s = (mark_outbox_dead id text s).1
  step (pending_approval id text) s = (mark_outbox_pending_approval id text s).1
  step (claim now limit) s = (claim_pending_outbox now limit s).1
  step (recover before limit) s = (recover_stale_sending before limit s).1
  step (enqueue params) s = (enqueue_outbound parse valid to_lower params s).1

  unfoldable pub run : List Call → Session Tables → Session Tables
  unfolding step
  run [] s = s
  run (c ∷ calls) s = run calls (step c s)

abbrev has_id : ℕ → ChannelOutbox → Bool
has_id id o = eqb o.id id

abbrev pub find_job : ℕ → Tables → Option ChannelOutbox
find_job id t = first_where (has_id id) t.outbox

-- The first job of that id is `o`.
abbrev Holds : ℕ → ChannelOutbox → Tables → Type 0
Holds id o t = find_job id t ≡ some o

module _ (id : ℕ) (o : ChannelOutbox) (final : o.status ≡ OutboxStatus.sent) where
  spared :
      (p : ChannelOutbox → Bool) (f : ChannelOutbox → ChannelOutbox) (rows : List ChannelOutbox)
      → ((x : ChannelOutbox) → (f x).id ≡ x.id)
      → p o ≡ false
      → first_where (has_id id) rows ≡ some o
      → first_where (has_id id) (update_where p f rows) ≡ some o
  spared p f rows same miss found =
      let after =
        first_where-update_where (has_id id) p f (λ x. ap (λ i. eqb i id) (same x)) rows in
      after ∙ ap (Option.map (update_row p f)) found ∙ ground arith

  update-Holds :
      (status : OutboxStatus) (change : ℕ → ChannelOutbox → ChannelOutbox) (job : ℕ)
      → is_status OutboxStatus.sent status ≡ false
      → ((now : ℕ) (x : ChannelOutbox) → (change now x).id ≡ x.id)
      → Keeps (Holds id o) (update_job status change job)
  update-Holds status change job other same =
      update_job-Keeps (Holds id o) status change job λ now t h.
        spared (is_job status job t.tenant) (change now) t.outbox (same now) (ground arith) h

  -- A new job comes after those that are there.
  insert_job-Holds :
      (message_id : ℕ) (job : ℕ → ℕ → ℕ → ChannelOutbox) (now : ℕ) (t : Tables)
      → Holds id o t
      → Holds id o (insert_job message_id job now t).1
  insert_job-Holds message_id job now t h =
      let more = job t.next_id t.tenant now ∷ [] in
      elim (Bool-cases (has_message message_id t.tenant t.messages)) [
        | inl there ↦ rw there (first_where-append (has_id id) t.outbox more o h)
        | inr missing ↦ rw missing h
      ]

  or_no_message-Holds : (r : Option ChannelOutbox) → Keeps (Holds id o) (or_no_message r)
  or_no_message-Holds none = Keeps-raise _
  or_no_message-Holds (some x) = Keeps-pure x

  module _ (parse : String → Option ℕ) (valid : String → Bool) (to_lower : String → String) where
    insert_outbound-Holds :
        (message_id : ℕ) (provider recipient_id payload : String) (max_attempts : ℕ)
        → Keeps (Holds id o) (
            insert_outbound parse valid to_lower message_id provider recipient_id payload
              max_attempts)
    unfolding insert_outbound
    insert_outbound-Holds message_id provider recipient_id payload max_attempts =
        Keeps-bind _ _
          (Keeps-statement _ _ λ now t h.
            insert_job-Holds message_id
              (inserted_job message_id provider recipient_id payload (or_five max_attempts)) now t
              h)
          or_no_message-Holds

    enqueue_message-Holds :
        (message : Option ℕ) (provider recipient_id payload : String) (max_attempts : ℕ)
        → Keeps (Holds id o) (
            enqueue_message parse valid to_lower message provider recipient_id payload max_attempts)
    unfolding enqueue_message
    enqueue_message-Holds none provider recipient_id payload max_attempts = Keeps-raise _
    enqueue_message-Holds (some message_id) provider recipient_id payload max_attempts =
        Keeps-if (provider == "") (Keeps-raise _) (
          Keeps-if (recipient_id == "") (Keeps-raise _) (
            Keeps-if (payload == "") (Keeps-raise _) (
              Keeps-if (valid payload)
                (insert_outbound-Holds message_id provider recipient_id payload max_attempts)
                (Keeps-raise _))))

    enqueue-Holds :
        (params : EnqueueOutboundParams)
        → Keeps (Holds id o) (enqueue_outbound parse valid to_lower params)
    unfolding enqueue_outbound
    enqueue-Holds params = Keeps-if (trim_space params.channel_message_id == "") (Keeps-raise _) (
        enqueue_message-Holds (parse (trim_space params.channel_message_id))
          (to_lower (trim_space params.provider)) (trim_space params.recipient_id) params.payload
          params.max_attempts)

    step-Holds :
        (c : Call) (s : Session Tables)
        → Holds id o s.tables
        → Holds id o (step parse valid to_lower c s).tables
    unfolding step requeue_outbox_dead mark_outbox_sent mark_outbox_retry mark_outbox_dead
        mark_outbox_pending_approval claim_pending_outbox recover_stale_sending
    step-Holds (requeue job) s h =
        (update-Holds OutboxStatus.dead set_requeued job refl (λ now x. refl)).at s h
    step-Holds (sent job) s h =
        (update-Holds OutboxStatus.sending set_sent job refl (λ now x. refl)).at s h
    step-Holds (retry job next text) s h =
        let updated =
          (update-Holds OutboxStatus.sending (set_retry next text) job refl (λ now x. refl)).at s
            h in
        ground (arith, updated)
    step-Holds (dead job text) s h =
        (update-Holds OutboxStatus.sending (set_dead text) job refl (λ now x. refl)).at s h
    step-Holds (pending_approval job text) s h =
        (update-Holds OutboxStatus.sending (set_pending_approval text) job refl (λ now x. refl)).at
          s h
    step-Holds (claim now limit) s h =
        (Keeps-statement {Good = Holds id o} _ _ λ clock t k.
            let test = is_due (or_time now clock) t.tenant in
            spared (is_picked test (picked test before_due limit t.outbox)) (set_sending clock)
              t.outbox (λ x. refl) (ground arith) k).at
          s h
    step-Holds (recover before limit) s h =
        (Keeps-statement {Good = Holds id o} _ _ λ clock t k.
            let test = is_stale (or_time before clock) t.tenant in
            spared (is_picked test (picked test before_stale limit t.outbox)) (set_recovered clock)
              t.outbox (λ x. refl) (ground arith) k).at
          s h
    step-Holds (enqueue params) s h = (enqueue-Holds params).at s h

-- A job that was sent is left alone: whatever calls follow that enqueue jobs, claim, recover or requeue
-- them, or mark them sent, to be tried again, dead or to be approved, with whatever failures, the row of
-- that id stays as it is, so it is never claimed and sent again.
pub run-sent :
    (parse : String → Option ℕ) (valid : String → Bool) (to_lower : String → String)
    (calls : List Call) (s : Session Tables) (id : ℕ) (o : ChannelOutbox)
    → find_job id s.tables ≡ some o
    → o.status ≡ OutboxStatus.sent
    → find_job id (run parse valid to_lower calls s).tables ≡ some o
unfolding run
run-sent parse valid to_lower [] s id o found final = found
run-sent parse valid to_lower (c ∷ calls) s id o found final =
    run-sent parse valid to_lower calls (step parse valid to_lower c s) id o
      (step-Holds id o final parse valid to_lower c s found) final
