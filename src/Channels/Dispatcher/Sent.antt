-- ===== src/Channels/Dispatcher/Sent.antt =====
-- What the dispatcher hands to the sender.
use heimdall.Base.{ℕ, [], ◌∷◌, All, All-append}
use heimdall.Base.Session.{Session}
use heimdall.Channels.Dispatcher.{World, Dispatcher, scan_of, deliver, dispatch_once}
use heimdall.Channels.Dispatcher.Clear.{IsClear}
use heimdall.Channels.Dispatcher.Keeps.{Kept, dispatch_once-Keeps}

abbrev SentClear : Dispatcher → World → Type 0
SentClear d w = All (λ job. IsClear (scan_of d d.scanner job)) w.sent

-- Only a delivery touches what was sent.
SentClear-Kept : (d : Dispatcher) (now : ℕ) → Kept (SentClear d) d now
unfolding deliver
SentClear-Kept d now = record {
  sent = λ id. record { at = λ s h. h };
  dead = λ id text. record { at = λ s h. h };
  held = λ id text. record { at = λ s h. h };
  again = λ id draw attempts e text. record { at = λ s h. h };
  reviewed = λ sink is_sink job report. record { at = λ s h. h };
  logged = λ kind job. record { at = λ s h. h };
  counted = record { at = λ s h. h };
  delivered =
      λ job clear. record { at = λ s h. All-append _ s.tables.sent (job ∷ []) (clear, tt) h };
}

-- Nothing that the scanner wants blocked or reviewed is ever handed to the sender, nor a job that the
-- scanner cannot read: if all that was sent so far is clear, so is all after a run, whether the run
-- ends well or in an error, whatever the sender answers and whatever statements fail.
pub dispatch_once-IsClear :
    (d : Dispatcher) (fuel now : ℕ) (s : Session World)
    → All (λ job. IsClear (scan_of d d.scanner job)) s.tables.sent
    → All (λ job. IsClear (scan_of d d.scanner job)) (dispatch_once d fuel now s).1.tables.sent
dispatch_once-IsClear d fuel now s clear =
    (dispatch_once-Keeps (SentClear d) d now (SentClear-Kept d now)
        (λ limit. record { at = λ s h. h }) (λ before limit. record { at = λ s h. h }) fuel).at
      s clear
