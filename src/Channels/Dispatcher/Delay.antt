-- ===== src/Channels/Dispatcher/Delay.antt =====
-- When a job is tried again.
use heimdall.Base.{
  ℕ, zero, suc, ◌+◌, ◌-◌, ◌*◌, ◌^◌, ◌≤◌, ◌<◌, ◌≡◌, Bool, false, refl, ltb, ◌/◌, if◌then◌else◌,
  arith, Bool-cases, String, List, some, All, eqb, inl, inr, leb,
}
use heimdall.Base.Session.{Session, Exec}
use heimdall.Base.Session.Keeps.{Keeps, Keeps-raise, Keeps-statement}
use heimdall.Base.Table.{All-update_where}
use heimdall.Database.{OutboxStatus, ChannelOutbox, Tables, Error, next_attempt_required}
use heimdall.Channels.Outbox.{
  set_sent, set_retry, set_dead, set_pending_approval, update_job, update_picked, mark_outbox_sent,
  mark_outbox_retry, mark_outbox_dead, mark_outbox_pending_approval, claim_pending_outbox,
  recover_stale_sending,
}
use heimdall.Channels.Outbox.Updates.{update_job-Keeps}
use heimdall.Channels.Dispatcher.Keeps.{Kept, OfDatabase, on_tables-Keeps, dispatch_once-Keeps}
use heimdall.Channels.Durations.{ℤ, pos, negsuc, Float, whole, is_above, at_most, at_least, later}
use heimdall.Channels.Delivery.{OutboundScanFinding, SendError, outbox_retry_after}
use heimdall.Channels.Dispatcher.{
  World, dispatch_once, deliver, Dispatcher, to_duration, retry_delay, chosen_delay,
}

div_one : (n : ℕ) → n / 1 ≡ n
div_one n = omega arith

later-at_most : (now max : ℕ) (delay : ℤ) → later now (at_most max delay) ≤ now + max
later-at_most now max (pos n) = ground arith
later-at_most now max (negsuc n) = omega arith

to_duration-fits : (d : Dispatcher) (n : ℕ) → n < 2 ^ 63 → to_duration d (whole (pos n)) ≡ pos n
unfolding to_duration
to_duration-fits d n small = rw (div_one n) (ground (arith, small))

to_duration-overflows :
    (d : Dispatcher) (n : ℕ)
    → 2 ^ 63 ≤ n
    → to_duration d (whole (pos n)) ≡ d.convert (whole (pos n))
unfolding to_duration
to_duration-overflows d n large = rw (div_one n) (ground (arith, large))

abbrev pub least : ℕ → ℕ → ℕ
least a b = if ltb a b then a else b

abbrev pub greatest : ℕ → ℕ → ℕ
greatest a b = if ltb a b then b else a

at_most-at_least :
    (max wanted full : ℕ)
    → at_most max (at_least wanted (at_most max (pos full)))
      ≡ pos (least max (greatest wanted full))
at_most-at_least max zero full = ground arith
at_most-at_least max (suc wanted) full = ground arith

-- No jitter is configured, and a float takes the base delay as it is, as it does up to 2 ^ 53.
pub record IsPlain (d : Dispatcher) : Type 0 where
  pub no_jitter : is_above d.cfg.jitter_fraction.mantissa 0 ≡ false
  pub is_float : d.rounded (whole (pos d.cfg.base_retry_delay)) ≡ whole (pos d.cfg.base_retry_delay)

exponent_is : (n : ℕ) → (if leb (suc n) 0 then 1 else suc n) - 1 ≡ n
exponent_is n = ground arith

abbrev pub full_delay : Dispatcher → ℕ → ℕ
full_delay d attempts = d.cfg.base_retry_delay * 2 ^ attempts

retry_delay-IsPlain :
    (d : Dispatcher) (draw attempts : ℕ)
    → IsPlain d
    → retry_delay d draw (suc attempts)
      ≡ at_most d.cfg.max_retry_delay (to_duration d (whole (pos (full_delay d attempts))))
unfolding retry_delay
retry_delay-IsPlain d draw attempts plain =
    rw (plain.no_jitter, plain.is_float, exponent_is attempts) refl

-- Without jitter, the delay after the nth failure is the base doubled n - 1 times, or what the provider asks
-- for if that is longer, and at most `MaxRetryDelay`: where a float takes the base delay as it is and the
-- doubled one fits a duration.
pub chosen_delay-exact :
    (d : Dispatcher) (draw attempts : ℕ) (e : SendError)
    → IsPlain d
    → full_delay d attempts < 2 ^ 63
    → chosen_delay d draw (suc attempts) e
      ≡ pos (least d.cfg.max_retry_delay (greatest (outbox_retry_after e) (full_delay d attempts)))
unfolding chosen_delay
chosen_delay-exact d draw attempts e plain small =
    rw (retry_delay-IsPlain d draw attempts plain, to_duration-fits d _ small)
      (at_most-at_least d.cfg.max_retry_delay (outbox_retry_after e) (full_delay d attempts))

-- Where a too large float converts to the least duration, as on amd64, a job that has failed so often that
-- the doubled base does not fit a duration is put off to a time that is not after now, if there is no jitter
-- and the provider asks for no delay.
pub chosen_delay-overflow :
    (d : Dispatcher) (now draw attempts : ℕ) (e : SendError)
    → IsPlain d
    → ((x : Float) → d.convert x ≡ negsuc (2 ^ 63 - 1))
    → outbox_retry_after e ≡ 0
    → 2 ^ 63 ≤ full_delay d attempts
    → later now (chosen_delay d draw (suc attempts) e) ≤ now
unfolding chosen_delay
chosen_delay-overflow d now draw attempts e plain least_of none_asked large =
    rw
      (
        retry_delay-IsPlain d draw attempts plain,
        to_duration-overflows d _ large,
        least_of (whole (pos (full_delay d attempts))),
        none_asked,
      )
      (omega arith)

-- The bound on the time of the next attempt, as an invariant of the outbox.
abbrev IsSoon : ℕ → ChannelOutbox → Type 0
IsSoon until o = o.next_attempt_at ≤ until

abbrev SoonTables : ℕ → Tables → Type 0
SoonTables until t = All (IsSoon until) t.outbox

module _ (until : ℕ) where
  update-IsSoon :
      (status : OutboxStatus) (change : ℕ → ChannelOutbox → ChannelOutbox) (id : ℕ)
      → ((now : ℕ) (o : ChannelOutbox) → IsSoon until o → IsSoon until (change now o))
      → Keeps (SoonTables until) (update_job status change id)
  update-IsSoon status change id keep =
      update_job-Keeps (SoonTables until) status change id (λ now t h.
        All-update_where (IsSoon until) _ (change now) (λ o soon _. keep now o soon) t.outbox h)

  picked-IsSoon :
      (test : ChannelOutbox → Bool) (before : ChannelOutbox → ChannelOutbox → Bool) (limit : ℕ)
      (change : ChannelOutbox → ChannelOutbox) (t : Tables)
      → ((o : ChannelOutbox) → IsSoon until o → IsSoon until (change o))
      → SoonTables until t
      → SoonTables until (update_picked test before limit change t).1
  picked-IsSoon test before limit change t keep h =
      All-update_where (IsSoon until) _ change (λ o soon _. keep o soon) t.outbox h

  retry-IsSoon :
      (id next : ℕ) (text : String)
      → next ≤ until
      → Keeps (SoonTables until) (mark_outbox_retry id next text)
  unfolding mark_outbox_retry
  retry-IsSoon id next text soon =
      let updated = update-IsSoon OutboxStatus.sending (set_retry next text) id (λ now o h. soon) in
      elim (Bool-cases (eqb next 0)) [
        | inl zero_time ↦ rw zero_time (Keeps-raise next_attempt_required)
        | inr time ↦ rw time updated
      ]

  SoonTables-Kept :
      (d : Dispatcher) (now : ℕ)
      → now + d.cfg.max_retry_delay ≤ until
      → ((sink : ChannelOutbox → List OutboundScanFinding → Exec Error Tables (Unit {0}))
          → d.review_sink ≡ some sink
          → (job : ChannelOutbox) (report : List OutboundScanFinding)
          → Keeps (SoonTables until) (sink job report))
      → Kept (OfDatabase (SoonTables until)) d now
  unfolding mark_outbox_sent mark_outbox_dead mark_outbox_pending_approval deliver chosen_delay
  SoonTables-Kept d now bound sinks =
      let soon : (draw attempts : ℕ) (e : SendError)
          → later now (chosen_delay d draw attempts e) ≤ until =
        λ draw attempts e. omega (
          arith,
          bound,
          later-at_most now d.cfg.max_retry_delay
              (at_least (outbox_retry_after e) (retry_delay d draw attempts)),
        ) in
      record {
        sent = λ id. on_tables-Keeps _ _ (update-IsSoon _ set_sent id (λ now o h. h));
        dead = λ id text. on_tables-Keeps _ _ (update-IsSoon _ (set_dead text) id (λ now o h. h));
        held = λ id text.
            on_tables-Keeps _ _ (update-IsSoon _ (set_pending_approval text) id (λ now o h. h));
        again = λ id draw attempts e text. on_tables-Keeps _ _ (
            retry-IsSoon id (later now (chosen_delay d draw attempts e)) text
              (soon draw attempts e));
        reviewed = λ sink is_sink job report. on_tables-Keeps _ _ (sinks sink is_sink job report);
        logged = λ kind job. record { at = λ s h. h };
        counted = record { at = λ s h. h };
        delivered = λ job clear. record { at = λ s h. h };
      }

-- No job is put off by more than `MaxRetryDelay`: if no job waits beyond that time after now, none does
-- after a run, whatever delays the provider asked for and whatever fails, given that the review sink
-- keeps to it.
pub dispatch_once-soon :
    (d : Dispatcher) (fuel now : ℕ) (s : Session World)
    → ((sink : ChannelOutbox → List OutboundScanFinding → Exec Error Tables (Unit {0}))
        → d.review_sink ≡ some sink
        → (job : ChannelOutbox) (report : List OutboundScanFinding)
        → Keeps
            (λ (t : Tables). All (λ o. o.next_attempt_at ≤ now + d.cfg.max_retry_delay) t.outbox)
            (sink job report))
    → All (λ o. o.next_attempt_at ≤ now + d.cfg.max_retry_delay) s.tables.database.outbox
    → All
        (λ o. o.next_attempt_at ≤ now + d.cfg.max_retry_delay)
        (dispatch_once d fuel now s).1.tables.database.outbox
unfolding claim_pending_outbox recover_stale_sending
dispatch_once-soon d fuel now s sinks soon =
    let until = now + d.cfg.max_retry_delay in
    (dispatch_once-Keeps (OfDatabase (SoonTables until)) d now
        (SoonTables-Kept until d now (omega arith) sinks)
        (λ limit.
          on_tables-Keeps _ _
            (Keeps-statement _ _ (λ clock t h. picked-IsSoon until _ _ limit _ t (λ o k. k) h)))
        (λ before limit.
          on_tables-Keeps _ _
            (Keeps-statement _ _ (λ clock t h. picked-IsSoon until _ _ limit _ t (λ o k. k) h)))
        fuel).at
      s soon
