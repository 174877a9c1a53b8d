-- ===== src/Channels/Outbox/Updates.antt =====
-- An invariant of the tables is kept by the update of one job, if it is kept by the statement.
use heimdall.Base.{ℕ, arith}
use heimdall.Base.Session.Keeps.{Keeps, Keeps-statement, Keeps-bind}
use heimdall.Database.{OutboxStatus, ChannelOutbox, Tables}
use heimdall.Channels.Outbox.{update_job, job_update, or_not_found}

pub update_job-Keeps :
    (Q : Tables → Type 0) (status : OutboxStatus) (change : ℕ → ChannelOutbox → ChannelOutbox)
    (id : ℕ)
    → ((now : ℕ) (t : Tables) → Q t → Q (job_update status change id now t).1)
    → Keeps Q (update_job status change id)
unfolding update_job
update_job-Keeps Q status change id keep =
    Keeps-bind _ or_not_found (Keeps-statement _ (job_update status change id) keep) answer
  where
    answer : (n : ℕ) → Keeps Q (or_not_found n)
    answer n = record { at = λ s h. ground arith }
