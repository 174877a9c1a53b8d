-- ===== src/Channels/Dispatcher.antt =====
-- internal/channels/outbox_dispatcher.go, with the errors of outbox_errors.go and the report of
-- outbound_scan.go: one run of the dispatcher over the outbox. The sender, the scanner, the review
-- sink, the jitter and the rounding of floats are fields of the dispatcher; the sender may answer by
-- all that was sent before. A configured duration or a count below 1 is 0 here. Of the activity log
-- the kinds are kept.
pub mod Clear
pub mod Keeps
pub mod Sent
pub mod Delay
use Prim.Native.String.{◌++◌ as concat}
use heimdall.Base.{
  ℕ, zero, suc, ◌+◌, ◌-◌, ◌*◌, ◌^◌, String, Bool, true, false, Option, none, some, List, [], ◌∷◌,
  ◌++◌, ltb, leb, ◌==◌, if◌then◌else◌,
}
use heimdall.Base.Text.{trim_space}
use heimdall.Base.Result.{Result, ok, err}
use heimdall.Base.Session.{Session, Exec, pure, raise, ◌>>=◌, ◌>>◌}
use heimdall.Database.{ChannelOutbox, Tables, Error, scan_failed, no_review_sink}
use heimdall.Channels.Durations.{
  ℤ, pos, Float, whole, exact_product, exact_one_plus, truncated, fits, is_above, clamp_unit,
  at_most, at_least, later,
}
use heimdall.Channels.Delivery
use heimdall.Channels.Delivery.{
  SendError, is_outbox_permanent_error, outbox_retry_after, OutboundScanFinding, action_block,
  action_review, first_by_action, Config, or_default, Kind, security_flagged, failed, retry,
  error_text,
}
use heimdall.Channels.Outbox.{
  mark_outbox_sent, mark_outbox_retry, mark_outbox_dead, mark_outbox_pending_approval,
  claim_pending_outbox, recover_stale_sending,
}

-- The database, what was handed to the sender, the activity log, and the count of jobs done.
pub record World : Type 0 where
  pub database : Tables
  pub sent : List ChannelOutbox
  pub events : List (Kind × ℕ)
  pub processed : ℕ

pub record Dispatcher : Type 0 where
  pub cfg : Config
  pub send : List ChannelOutbox → ChannelOutbox → Option SendError
  pub scanner : Option (ChannelOutbox → Option (List OutboundScanFinding))
  pub review_sink : Option (ChannelOutbox → List OutboundScanFinding → Exec Error Tables (Unit {0}))
  -- What the numbered draw of the jitter yields.
  pub jitter : ℕ → Float
  -- The rounding of an exact result to a float.
  pub rounded : Float → Float
  -- The duration of a float that is out of range, which Go leaves to the platform.
  pub convert : Float → ℤ

abbrev pub lowered : Session World → Session Tables
lowered s = record { tables = s.tables.database; now = s.now; faults = s.faults }

module _ {A : Type 0} where
  abbrev pub on_tables : Exec Error Tables A → Exec Error World A
  on_tables m s =
      let (r, s') = m (lowered s) in
      (r, record s { tables = record s.tables { database = s'.tables }; faults = s'.faults })

abbrev pub log_event : Kind → ChannelOutbox → Exec Error World (Unit {0})
log_event kind job s = (
  ok tt,
  record s { tables = record s.tables { events = s.tables.events ++ (kind, job.id) ∷ [] } },
)

-- The count names the draw of the jitter.
abbrev pub drawn : Exec Error World ℕ
drawn s = (ok s.tables.processed, s)

-- `processed++`
abbrev pub count : Exec Error World (Unit {0})
count s = (ok tt, record s { tables = record s.tables { processed = suc s.tables.processed } })

module _ (d : Dispatcher) where
  unfoldable pub to_duration : Float → ℤ
  to_duration x = if fits (truncated x) then truncated x else d.convert x

  -- `float64(delay) * (1 + (d.cfg.JitterFraction * jitter))`, with each result rounded.
  unfoldable pub jittered : Float → ℤ → Float
  unfolding clamp_unit
  jittered jitter delay =
      let share = d.rounded (exact_product d.cfg.jitter_fraction (clamp_unit jitter)) in
      d.rounded (exact_product (d.rounded (whole delay)) (d.rounded (exact_one_plus share)))

  -- A power of two times a float is exact; above the largest float it is too large as infinity is.
  unfoldable pub retry_delay : ℕ → ℕ → ℤ
  unfolding to_duration jittered
  retry_delay draw attempts =
      let exponent = (if leb attempts 0 then 1 else attempts) - 1 in
      let base =
        exact_product (d.rounded (whole (pos d.cfg.base_retry_delay)))
          (whole (pos (2 ^ exponent))) in
      let delay = at_most d.cfg.max_retry_delay (to_duration base) in
      if is_above d.cfg.jitter_fraction.mantissa 0
      then at_most d.cfg.max_retry_delay (to_duration (jittered (d.jitter draw) delay))
      else delay

  unfoldable pub chosen_delay : ℕ → ℕ → SendError → ℤ
  unfolding retry_delay outbox_retry_after
  chosen_delay draw attempts e =
      at_most d.cfg.max_retry_delay (at_least (outbox_retry_after e) (retry_delay draw attempts))

  abbrev pub scan_text : String → OutboundScanFinding → String
  scan_text prefix f = concat prefix (concat f.category (concat " (" (concat f.path ")")))

  unfoldable pub block : ChannelOutbox → OutboundScanFinding → Exec Error World Bool
  block job finding = do
    done ← on_tables (mark_outbox_dead job.id (scan_text "blocked by outbound scan: " finding))
    logged ← log_event security_flagged job
    pure true

  unfoldable pub review :
      ChannelOutbox
      → List OutboundScanFinding
      → OutboundScanFinding
      → Option (ChannelOutbox → List OutboundScanFinding → Exec Error Tables (Unit {0}))
      → Exec Error World Bool
  review job report finding none = raise no_review_sink
  review job report finding (some create_review) = do
    created ← on_tables (create_review job report)
    done ← on_tables (
        mark_outbox_pending_approval job.id
          (scan_text "review required by outbound scan: " finding))
    logged ← log_event security_flagged job
    pure true

  unfoldable pub apply_found :
      ChannelOutbox
      → List OutboundScanFinding
      → Option OutboundScanFinding
      → Option OutboundScanFinding
      → Exec Error World Bool
  apply_found job report (some finding) to_review = block job finding
  apply_found job report none (some finding) = review job report finding d.review_sink
  apply_found job report none none = pure false

  unfoldable pub apply_report : ChannelOutbox → List OutboundScanFinding → Exec Error World Bool
  apply_report job report =
      apply_found job report (first_by_action action_block report)
        (first_by_action action_review report)

  unfoldable pub apply_scan :
      ChannelOutbox → Option (Option (List OutboundScanFinding)) → Exec Error World Bool
  apply_scan job none = pure false
  apply_scan job (some none) = raise scan_failed
  apply_scan job (some (some report)) = apply_report job report

  -- What the scanner says of a job; the outer `none` is that there is no scanner.
  abbrev pub scan_of :
      Option (ChannelOutbox → Option (List OutboundScanFinding))
      → ChannelOutbox
      → Option (Option (List OutboundScanFinding))
  scan_of none job = none
  scan_of (some scan) job = some (scan job)

  -- Whether the job was handled, and is not to be sent.
  unfoldable pub apply_outbound_scan : ChannelOutbox → Exec Error World Bool
  apply_outbound_scan job = apply_scan job (scan_of d.scanner job)

  unfoldable pub deliver : ChannelOutbox → Exec Error World (Option SendError)
  deliver job s = (
    ok (d.send s.tables.sent job),
    record s { tables = record s.tables { sent = s.tables.sent ++ job ∷ [] } },
  )

  abbrev pub limit_of : ChannelOutbox → ℕ
  limit_of job = or_default job.max_attempts d.cfg.max_attempts

  unfoldable pub after_failure : ℕ → ℕ → ChannelOutbox → SendError → Exec Error World (Unit {0})
  after_failure now draw job e =
      let text = error_text e in
      let attempts_after = suc job.attempt_count in
      if is_outbox_permanent_error e
      then (do done ← on_tables (mark_outbox_dead job.id text); log_event failed job)
      else if leb (limit_of job) attempts_after
      then on_tables (mark_outbox_dead job.id text)
      else (do
        done ←
            on_tables
              (mark_outbox_retry job.id (later now (chosen_delay draw attempts_after e)) text)
        log_event retry job)

  unfoldable pub after_send : ℕ → ℕ → ChannelOutbox → Option SendError → Exec Error World (Unit {0})
  after_send now draw job (some e) = after_failure now draw job e
  after_send now draw job none = do
    done ← on_tables (mark_outbox_sent job.id)
    log_event Kind.sent job

  unfoldable pub send_job : ℕ → ChannelOutbox → Exec Error World (Unit {0})
  send_job now job = do draw ← drawn; failure ← deliver job; after_send now draw job failure

  -- One round of the loop over the claimed jobs.
  unfoldable pub process_job : ℕ → ChannelOutbox → Exec Error World (Unit {0})
  process_job now job = do
    handled ← apply_outbound_scan job
    done ← if handled then pure tt else send_job now job
    count

  unfoldable pub process_jobs : ℕ → List ChannelOutbox → Exec Error World (Unit {0})
  process_jobs now [] = pure tt
  process_jobs now (job ∷ jobs) =
      let rest = process_jobs now jobs in do done ← process_job now job; rest

  abbrev pub round : ℕ → List ChannelOutbox → Exec Error World Bool → Exec Error World Bool
  round now [] rest = pure true
  round now (job ∷ jobs) rest = do done ← process_jobs now (job ∷ jobs); rest

  -- The loop that claims until nothing is due, on fuel: `false` is that the fuel ran out.
  unfoldable pub dispatch_loop : ℕ → ℕ → Exec Error World Bool
  dispatch_loop zero now = pure false
  dispatch_loop (suc fuel) now =
      let rest = dispatch_loop fuel now in
      do
        claimed ← on_tables (claim_pending_outbox now d.cfg.claim_batch_size)
        round now claimed rest

  unfoldable pub dispatch_once : ℕ → ℕ → Exec Error World Bool
  dispatch_once fuel now = do
    recovered ←
        on_tables (recover_stale_sending (now - d.cfg.lock_timeout) d.cfg.recovery_batch_size)
    dispatch_loop fuel now
