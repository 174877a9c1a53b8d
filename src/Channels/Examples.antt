-- ===== src/Channels/Examples.antt =====
-- The theorems on the outbox at two jobs, one with a secret in it.
use heimdall.Base.{
  ℕ, ◌-◌, ◌^◌, ◌+◌, ◌≤◌, ◌≡◌, refl, true, Option, none, some, List, [], ◌∷◌, String, arith, All,
  length, ◌==◌, if◌then◌else◌,
}
use heimdall.Base.Text.{trim_space}
use heimdall.Base.Result.{ok}
use heimdall.Base.Session.{Session}
use heimdall.Database.{OutboxStatus, ChannelOutbox, Tables}
use heimdall.Channels.Outbox.{
  claim_pending_outbox, set_sending, or_one, mark_outbox_sent, mark_outbox_dead, update_job,
  recover_stale_sending, mark_outbox_retry,
}
use heimdall.Channels.Outbox.Enqueue.{enqueue_outbound, inserted_job, EnqueueOutboundParams}
use heimdall.Channels.Outbox.Claim.{IsClaimed, claim_pending_outbox-ok}
use heimdall.Channels.Outbox.History.{
  Call, find_job, run, run-sent, enqueue, requeue, claim, recover, retry,
}
use heimdall.Channels.Durations.{pos, negsuc, whole, clamp_unit, later}
use heimdall.Channels.Delivery.{
  Config, SendError, OutboundScanFinding, Kind, with_defaults, first_by_action, error_text,
  is_outbox_permanent_error, outbox_retry_after, action_block,
}
use heimdall.Channels.Dispatcher.{
  World, Dispatcher, scan_of, chosen_delay, dispatch_once, dispatch_loop, process_jobs, process_job,
  apply_outbound_scan, apply_scan, apply_report, apply_found, block, send_job, deliver, after_send,
  after_failure, retry_delay, to_duration, jittered,
}
use heimdall.Channels.Dispatcher.Clear.{IsClear}
use heimdall.Channels.Dispatcher.Delay.{
  IsPlain, least, greatest, full_delay, chosen_delay-exact, chosen_delay-overflow,
  dispatch_once-soon,
}
use heimdall.Channels.Dispatcher.Sent.{dispatch_once-IsClear}

abbrev job : ℕ → String → ChannelOutbox
job id payload = inserted_job 4 "slack" "u" payload 5 id 7 90

abbrev tables : List ChannelOutbox → Session Tables
tables jobs = record {
  tables = record {
    tenant = 7;
    next_id = 9;
    messages = (4, 7) ∷ [];
    actions = [];
    requests = [];
    outbox = jobs;
  };
  now = 130;
  faults = [];
}

abbrev params : EnqueueOutboundParams
params = record {
  channel_message_id = " m ";
  provider = "slack";
  recipient_id = "u ";
  payload = "{}";
  max_attempts = 0;
}

enqueues :
    (enqueue_outbound (λ s. some 4) (λ s. true) (λ s. s) params (tables [])).0
    ≡ ok (inserted_job 4 "slack" "u" "{}" 5 9 7 130)
unfolding enqueue_outbound trim_space
enqueues = refl

abbrev two_jobs : Session Tables
two_jobs = tables (job 1 "a" ∷ job 2 "b" ∷ [])

first_claimed : (claim_pending_outbox 100 1 two_jobs).0 ≡ ok (set_sending 130 (job 1 "a") ∷ [])
unfolding claim_pending_outbox
first_claimed = refl

claim_pending_outbox-ok_example :
    (length (set_sending 130 (job 1 "a") ∷ []) ≤ or_one 1)
    × All
        (IsClaimed 100 7 130 two_jobs.tables.outbox
          (claim_pending_outbox 100 1 two_jobs).1.tables.outbox)
        (set_sending 130 (job 1 "a") ∷ [])
claim_pending_outbox-ok_example =
    claim_pending_outbox-ok 100 1 two_jobs (set_sending 130 (job 1 "a") ∷ []) first_claimed

abbrev sent_job : ChannelOutbox
sent_job = record (job 1 "a") { status = OutboxStatus.sent }

-- A new job, and every kind of move that could take the job that was sent.
abbrev calls : List Call
calls = enqueue params ∷ requeue 1 ∷ claim 200 5 ∷ recover 300 5 ∷ retry 1 400 "x" ∷ []

run-sent_example :
    find_job 1 (run (λ s. some 4) (λ s. true) (λ s. s) calls (tables (sent_job ∷ []))).tables
    ≡ some sent_job
run-sent_example =
    run-sent (λ s. some 4) (λ s. true) (λ s. s) calls (tables (sent_job ∷ [])) 1 sent_job refl refl

abbrev secret : OutboundScanFinding
secret = record { category = "secret_leak"; path = "payload"; action = action_block }

abbrev find_secret : ChannelOutbox → Option (List OutboundScanFinding)
find_secret o = some (if o.payload == "secret" then secret ∷ [] else [])

abbrev no_defaults : Config
no_defaults = record {
  claim_batch_size = 0;
  recovery_batch_size = 0;
  lock_timeout = 0;
  max_attempts = 0;
  base_retry_delay = 0;
  max_retry_delay = 0;
  jitter_fraction = whole (pos 2);
}

abbrev refused : SendError
refused = record { text = "busy"; as_outbox = none }

-- The provider refuses the first delivery.
abbrev answers : List ChannelOutbox → ChannelOutbox → Option SendError
answers [] o = some refused
answers (x ∷ xs) o = none

abbrev dispatcher : Dispatcher
dispatcher = record {
  cfg = with_defaults no_defaults;
  send = answers;
  scanner = some find_secret;
  review_sink = none;
  jitter = λ draw. record { mantissa = pos 1; scale = 1 };
  rounded = λ x. x;
  convert = λ x. pos 1;
}

abbrev world : Session World
world = record {
  tables = record {
    database = (tables (job 1 "secret" ∷ job 2 "b" ∷ job 3 "c" ∷ [])).tables;
    sent = [];
    events = [];
    processed = 0;
  };
  now = 130;
  faults = [];
}

-- The job with the secret is blocked, the second is put off, the third is sent.
runs :
    let after = (dispatch_once dispatcher 4 100 world).1.tables in
    (after.sent ≡ set_sending 130 (job 2 "b") ∷ set_sending 130 (job 3 "c") ∷ [])
    × (after.events ≡ (Kind.security_flagged, 1) ∷ (Kind.retry, 2) ∷ (Kind.sent, 3) ∷ [])
    × (after.processed ≡ 3)
unfolding dispatch_once dispatch_loop process_jobs process_job apply_outbound_scan apply_scan
    apply_report apply_found block first_by_action send_job deliver after_send after_failure
    retry_delay to_duration jittered clamp_unit with_defaults mark_outbox_sent mark_outbox_dead
    mark_outbox_retry update_job claim_pending_outbox recover_stale_sending trim_space error_text
    is_outbox_permanent_error outbox_retry_after chosen_delay
runs = (refl, refl, refl)

dispatch_once-IsClear_example :
    All
      (λ o. IsClear (scan_of dispatcher dispatcher.scanner o))
      (dispatch_once dispatcher 4 100 world).1.tables.sent
dispatch_once-IsClear_example = dispatch_once-IsClear dispatcher 4 100 world tt

dispatch_once-soon_example :
    All
      (λ o. o.next_attempt_at ≤ 100 + dispatcher.cfg.max_retry_delay)
      (dispatch_once dispatcher 4 100 world).1.tables.database.outbox
unfolding with_defaults
dispatch_once-soon_example =
    dispatch_once-soon dispatcher 4 100 world (λ sink is_sink. absurd (ground arith))
      (omega arith, (omega arith, (omega arith, tt)))

-- The dispatcher without jitter, and with the conversion of amd64.
abbrev plain : Dispatcher
plain = record dispatcher {
  cfg = record (with_defaults no_defaults) { jitter_fraction = whole (pos 0) };
  convert = λ x. negsuc (2 ^ 63 - 1);
}

plain-IsPlain : IsPlain plain
unfolding with_defaults
plain-IsPlain = record { no_jitter = refl; is_float = refl }

chosen_delay-exact_example :
    chosen_delay plain 0 3 refused
    ≡ pos (
        least plain.cfg.max_retry_delay
          (greatest (outbox_retry_after refused) (full_delay plain 2)))
unfolding with_defaults
chosen_delay-exact_example = chosen_delay-exact plain 0 2 refused plain-IsPlain (omega arith)

-- Twenty seconds.
third_delay :
    least plain.cfg.max_retry_delay (greatest (outbox_retry_after refused) (full_delay plain 2))
    ≡ 20000000000
unfolding with_defaults outbox_retry_after
third_delay = refl

chosen_delay-overflow_example : later 100 (chosen_delay plain 0 32 refused) ≤ 100
unfolding with_defaults outbox_retry_after
chosen_delay-overflow_example =
    chosen_delay-overflow plain 100 0 31 refused plain-IsPlain (λ x. refl) refl (omega arith)
