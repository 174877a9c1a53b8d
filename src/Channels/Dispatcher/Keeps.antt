-- ===== src/Channels/Dispatcher/Keeps.antt =====
-- What a run of the dispatcher keeps of the database, from what the statements it makes keep.
use heimdall.Base.{
  ℕ, zero, suc, String, ◌≡◌, refl, Bool, true, false, Option, none, some, List, [], ◌∷◌,
  if◌then◌else◌, leb, Bool-cases, inl, inr,
}
use heimdall.Base.Result.{ok}
use heimdall.Base.Session.{Session, Exec, pure, ◌>>=◌}
use heimdall.Base.Session.Keeps.{Keeps, Keeps-pure, Keeps-raise, Keeps-bind, Keeps-bind_result}
use heimdall.Database.{ChannelOutbox, Tables, Error, scan_failed, no_review_sink}
use heimdall.Channels.Outbox.{
  mark_outbox_sent, mark_outbox_retry, mark_outbox_dead, mark_outbox_pending_approval,
  claim_pending_outbox, recover_stale_sending,
}
use heimdall.Channels.Durations.{later}
use heimdall.Channels.Dispatcher.Clear.{IsClear, apply_scan-IsClear}
use heimdall.Channels.Delivery.{OutboundScanFinding, SendError, Kind, is_outbox_permanent_error}
use heimdall.Channels.Dispatcher.{
  World, Dispatcher, on_tables, log_event, lowered, limit_of, chosen_delay, block, review,
  apply_found, apply_report, apply_scan, scan_of, apply_outbound_scan, deliver, drawn, count,
  after_failure, after_send, send_job, process_job, process_jobs, round, dispatch_loop,
  dispatch_once,
}

-- A predicate that every step of the dispatcher keeps.
pub record Kept (P : World → Type 0) (d : Dispatcher) (now : ℕ) : Type 1 where
  pub sent : (id : ℕ) → Keeps P (on_tables (mark_outbox_sent id))
  pub dead : (id : ℕ) (text : String) → Keeps P (on_tables (mark_outbox_dead id text))
  pub held : (id : ℕ) (text : String) → Keeps P (on_tables (mark_outbox_pending_approval id text))
  pub again :
      (id draw attempts : ℕ) (e : SendError) (text : String)
      → Keeps P (on_tables (mark_outbox_retry id (later now (chosen_delay d draw attempts e)) text))
  pub reviewed :
      (sink : ChannelOutbox → List OutboundScanFinding → Exec Error Tables (Unit {0}))
      → d.review_sink ≡ some sink
      → (job : ChannelOutbox) (report : List OutboundScanFinding)
      → Keeps P (on_tables (sink job report))
  pub logged : (kind : Kind) (job : ChannelOutbox) → Keeps P (log_event kind job)
  pub counted : Keeps P count
  pub delivered :
      (job : ChannelOutbox) → IsClear (scan_of d d.scanner job) → Keeps P (deliver d job)

abbrev pub OfDatabase : (Tables → Type 0) → World → Type 0
OfDatabase Q w = Q w.database

module _ {A : Type 0} where
  pub on_tables-Keeps :
      (Q : Tables → Type 0) (m : Exec Error Tables A)
      → Keeps Q m
      → Keeps (OfDatabase Q) (on_tables m)
  on_tables-Keeps Q m keep = record { at = λ s h. keep.at (lowered s) h }

module _ (P : World → Type 0) (d : Dispatcher) (now : ℕ) (kept : Kept P d now) where
  flagged-Keeps :
      (job : ChannelOutbox) → Keeps P (log_event Kind.security_flagged job >>= λ _. pure true)
  flagged-Keeps job = Keeps-bind _ _ (kept.logged Kind.security_flagged job) (λ _. Keeps-pure true)

  block-Keeps : (job : ChannelOutbox) (f : OutboundScanFinding) → Keeps P (block d job f)
  unfolding block
  block-Keeps job f = Keeps-bind _ _ (kept.dead _ _) (λ _. flagged-Keeps job)

  review-Keeps :
      (job : ChannelOutbox) (report : List OutboundScanFinding) (f : OutboundScanFinding)
      (o : Option (ChannelOutbox → List OutboundScanFinding → Exec Error Tables (Unit {0})))
      → d.review_sink ≡ o
      → Keeps P (review d job report f o)
  unfolding review
  review-Keeps job report f none _ = Keeps-raise no_review_sink
  review-Keeps job report f (some sink) is_sink =
      Keeps-bind _ _ (kept.reviewed sink is_sink job report)
        (λ _. Keeps-bind _ _ (kept.held _ _) (λ _. flagged-Keeps job))

  apply_found-Keeps :
      (job : ChannelOutbox) (report : List OutboundScanFinding) (o p : Option OutboundScanFinding)
      → Keeps P (apply_found d job report o p)
  unfolding apply_found
  apply_found-Keeps job report (some f) p = block-Keeps job f
  apply_found-Keeps job report none (some f) = review-Keeps job report f d.review_sink refl
  apply_found-Keeps job report none none = Keeps-pure false

  apply_scan-Keeps :
      (job : ChannelOutbox) (o : Option (Option (List OutboundScanFinding)))
      → Keeps P (apply_scan d job o)
  unfolding apply_scan apply_report
  apply_scan-Keeps job none = Keeps-pure false
  apply_scan-Keeps job (some none) = Keeps-raise scan_failed
  apply_scan-Keeps job (some (some report)) = apply_found-Keeps job report _ _

  after_failure-Keeps :
      (draw : ℕ) (job : ChannelOutbox) (e : SendError) → Keeps P (after_failure d now draw job e)
  unfolding after_failure
  after_failure-Keeps draw job e = elim (Bool-cases (is_outbox_permanent_error e)) [
    | inl permanent ↦ rw permanent (Keeps-bind _ _ (kept.dead _ _) (λ _. kept.logged _ job))
    | inr transient ↦ elim (Bool-cases (leb (limit_of d job) (suc job.attempt_count))) [
      | inl last ↦ rw (transient, last) (kept.dead _ _)
      | inr more ↦
          rw (transient, more) (Keeps-bind _ _ (kept.again _ _ _ _ _) (λ _. kept.logged _ job))
    ]
  ]

  after_send-Keeps :
      (draw : ℕ) (job : ChannelOutbox) (o : Option SendError)
      → Keeps P (after_send d now draw job o)
  unfolding after_send
  after_send-Keeps draw job (some e) = after_failure-Keeps draw job e
  after_send-Keeps draw job none = Keeps-bind _ _ (kept.sent _) (λ _. kept.logged _ job)

  send_job-Keeps :
      (job : ChannelOutbox) → IsClear (scan_of d d.scanner job) → Keeps P (send_job d now job)
  unfolding send_job
  send_job-Keeps job clear =
      Keeps-bind drawn (λ draw. do failure ← deliver d job; after_send d now draw job failure)
        (record { at = λ s h. h })
        (λ draw.
          Keeps-bind (deliver d job) _ (kept.delivered job clear) (after_send-Keeps draw job))

  after_scan :
      (job : ChannelOutbox) (handled : Bool) (s : Session World)
      → (apply_scan d job (scan_of d d.scanner job) s).0 ≡ ok handled
      → Keeps P (do done ← if handled then pure tt else send_job d now job; count)
  after_scan job true s h = Keeps-bind (pure tt) _ (Keeps-pure tt) (λ _. kept.counted)
  after_scan job false s h =
      Keeps-bind _ _ (send_job-Keeps job (apply_scan-IsClear d job _ s h)) (λ _. kept.counted)

  process_job-Keeps : (job : ChannelOutbox) → Keeps P (process_job d now job)
  unfolding process_job apply_outbound_scan
  process_job-Keeps job =
      Keeps-bind_result _ _ (apply_scan-Keeps job (scan_of d d.scanner job)) (after_scan job)

  pub process_jobs-Keeps : (jobs : List ChannelOutbox) → Keeps P (process_jobs d now jobs)
  unfolding process_jobs
  process_jobs-Keeps [] = Keeps-pure tt
  process_jobs-Keeps (job ∷ jobs) =
      Keeps-bind _ _ (process_job-Keeps job) (λ _. process_jobs-Keeps jobs)

  round-Keeps :
      (jobs : List ChannelOutbox) (rest : Exec Error World Bool)
      → Keeps P rest
      → Keeps P (round d now jobs rest)
  round-Keeps [] rest keep = Keeps-pure true
  round-Keeps (job ∷ jobs) rest keep = Keeps-bind _ _ (process_jobs-Keeps (job ∷ jobs)) (λ _. keep)

  module _ (claimed : (limit : ℕ) → Keeps P (on_tables (claim_pending_outbox now limit))) where
    dispatch_loop-Keeps : (fuel : ℕ) → Keeps P (dispatch_loop d fuel now)
    unfolding dispatch_loop
    dispatch_loop-Keeps zero = Keeps-pure false
    dispatch_loop-Keeps (suc fuel) =
        Keeps-bind _ _ (claimed d.cfg.claim_batch_size)
          (λ jobs. round-Keeps jobs (dispatch_loop d fuel now) (dispatch_loop-Keeps fuel))

    pub dispatch_once-Keeps :
        (recovered : (before limit : ℕ) → Keeps P (on_tables (recover_stale_sending before limit)))
        (fuel : ℕ)
        → Keeps P (dispatch_once d fuel now)
    unfolding dispatch_once
    dispatch_once-Keeps recovered fuel =
        Keeps-bind _ _ (recovered _ _) (λ _. dispatch_loop-Keeps fuel)
