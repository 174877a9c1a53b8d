-- ===== src/Channels/Dispatcher/Clear.antt =====
-- Which jobs pass the scan.
use heimdall.Base.{
  ◌≡◌, ◌≢◌, refl, ◌⊎◌, inl, inr, Bool, true, false, Option, none, some, List, arith,
}
use heimdall.Base.Result.{ok}
use heimdall.Base.Session.{Session, Exec, pure, ◌>>=◌, >>=-ok}
use heimdall.Database.{ChannelOutbox, Tables, Error}
use heimdall.Channels.Outbox.{mark_outbox_dead, mark_outbox_pending_approval}
use heimdall.Channels.Delivery.{
  Kind, OutboundScanFinding, first_by_action, action_block, action_review,
}
use heimdall.Channels.Dispatcher.{
  World, Dispatcher, scan_text, on_tables, log_event, block, review, apply_found, apply_report,
  apply_scan,
}

-- A job may be sent: no scanner is there, or its report asks neither to block nor to review.
abbrev pub IsClear : Option (Option (List OutboundScanFinding)) → Type 0
IsClear scan =
    (scan ≡ none)
    ⊎ ((report : List OutboundScanFinding) × (scan ≡ some (some report))
        × (first_by_action action_block report ≡ none)
        × (first_by_action action_review report ≡ none))

abbrev NeverFalse : Exec Error World Bool → Type 0
NeverFalse m = (s : Session World) → (m s).0 ≢ ok false

module _ {A : Type 0} where
  bind-NeverFalse :
      (m : Exec Error World A) (f : A → Exec Error World Bool)
      → ((a : A) → NeverFalse (f a))
      → NeverFalse (m >>= f)
  bind-NeverFalse m f never s h = let (a, _, rest) = >>=-ok m f s false h in never a (m s).1 rest

true_is_no_false : NeverFalse (pure true)
true_is_no_false s h = ground arith

logged-NeverFalse :
    (job : ChannelOutbox) → NeverFalse (log_event Kind.security_flagged job >>= λ _. pure true)
logged-NeverFalse job =
    bind-NeverFalse (log_event Kind.security_flagged job) (λ _. pure true) (λ _. true_is_no_false)

block-NeverFalse :
    (d : Dispatcher) (job : ChannelOutbox) (f : OutboundScanFinding) → NeverFalse (block d job f)
unfolding block
block-NeverFalse d job f =
    bind-NeverFalse
      (on_tables (mark_outbox_dead job.id (scan_text d "blocked by outbound scan: " f)))
      (λ _. log_event Kind.security_flagged job >>= λ _. pure true) (λ _. logged-NeverFalse job)

review-NeverFalse :
    (d : Dispatcher) (job : ChannelOutbox) (report : List OutboundScanFinding)
    (f : OutboundScanFinding)
    (sink : Option (ChannelOutbox → List OutboundScanFinding → Exec Error Tables (Unit {0})))
    → NeverFalse (review d job report f sink)
unfolding review
review-NeverFalse d job report f none s h = ground arith
review-NeverFalse d job report f (some sink) s h =
    let held =
      on_tables (
        mark_outbox_pending_approval job.id (scan_text d "review required by outbound scan: " f)) in
    let log = log_event Kind.security_flagged job >>= λ _. pure true in
    bind-NeverFalse (on_tables (sink job report)) (λ _. held >>= λ _. log)
      (λ _. bind-NeverFalse held (λ _. log) (λ _. logged-NeverFalse job)) s h

found_nothing :
    (d : Dispatcher) (job : ChannelOutbox) (report : List OutboundScanFinding)
    (o p : Option OutboundScanFinding) (s : Session World)
    → (apply_found d job report o p s).0 ≡ ok false
    → (o ≡ none) × (p ≡ none)
unfolding apply_found
found_nothing d job report (some f) p s h = absurd (block-NeverFalse d job f s h)
found_nothing d job report none (some f) s h =
    absurd (review-NeverFalse d job report f d.review_sink s h)
found_nothing d job report none none s h = (refl, refl)

pub apply_scan-IsClear :
    (d : Dispatcher) (job : ChannelOutbox) (scan : Option (Option (List OutboundScanFinding)))
    (s : Session World)
    → (apply_scan d job scan s).0 ≡ ok false
    → IsClear scan
unfolding apply_scan apply_report
apply_scan-IsClear d job none s h = inl refl
apply_scan-IsClear d job (some none) s h = absurd (ground arith)
apply_scan-IsClear d job (some (some report)) s h =
    let (unblocked, unreviewed) =
      found_nothing d job report (first_by_action action_block report)
        (first_by_action action_review report) s h in
    inr (report, refl, unblocked, unreviewed)
