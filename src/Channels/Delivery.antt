-- ===== src/Channels/Delivery.antt =====
-- internal/channels: how the sender fails (outbox_errors.go), what a scan reports (outbound_scan.go), and
-- how the dispatcher is set up (outbox_dispatcher.go). A duration or a count below 1 is 0 here.
use heimdall.Base.{
  ℕ, zero, suc, String, Bool, false, Option, none, some, List, [], ◌∷◌, ◌==◌, if◌then◌else◌,
}
use heimdall.Base.Text.{trim_space}
use heimdall.Channels.Durations.{Float, clamp_unit}

pub record OutboxSendError : Type 0 where
  pub permanent : Bool
  pub retry_after : ℕ

-- An error of the sender: its text, and what `errors.As` finds in it.
pub record SendError : Type 0 where
  pub text : String
  pub as_outbox : Option OutboxSendError

abbrev pub permanent_of : Option OutboxSendError → Bool
permanent_of none = false
permanent_of (some e) = e.permanent

unfoldable pub is_outbox_permanent_error : SendError → Bool
is_outbox_permanent_error e = permanent_of e.as_outbox

abbrev pub retry_after_of : Option OutboxSendError → ℕ
retry_after_of none = 0
retry_after_of (some e) = e.retry_after

-- 0 where Go answers that there is none.
unfoldable pub outbox_retry_after : SendError → ℕ
outbox_retry_after e = retry_after_of e.as_outbox

pub record OutboundScanFinding : Type 0 where
  pub category : String
  pub path : String
  pub action : String

abbrev pub action_block : String
action_block = "block"

abbrev pub action_review : String
action_review = "review"

unfoldable pub first_by_action : String → List OutboundScanFinding → Option OutboundScanFinding
first_by_action action [] = none
first_by_action action (finding ∷ findings) =
    if finding.action == action then some finding else first_by_action action findings

pub record Config : Type 0 where
  pub claim_batch_size : ℕ
  pub recovery_batch_size : ℕ
  pub lock_timeout : ℕ
  pub max_attempts : ℕ
  pub base_retry_delay : ℕ
  pub max_retry_delay : ℕ
  pub jitter_fraction : Float

abbrev pub or_default : ℕ → ℕ → ℕ
or_default zero default = default
or_default (suc n) default = suc n

-- The defaults of `NewOutboxDispatcher`, in nanoseconds.
unfoldable pub with_defaults : Config → Config
unfolding clamp_unit
with_defaults cfg =
    let claim = or_default cfg.claim_batch_size 10 in
    record {
      claim_batch_size = claim;
      recovery_batch_size = or_default cfg.recovery_batch_size claim;
      lock_timeout = or_default cfg.lock_timeout 30000000000;
      max_attempts = or_default cfg.max_attempts 5;
      base_retry_delay = or_default cfg.base_retry_delay 5000000000;
      max_retry_delay = or_default cfg.max_retry_delay 120000000000;
      jitter_fraction = clamp_unit cfg.jitter_fraction;
    }

pub data Kind : Type 0 where
  security_flagged failed retry sent : Kind

unfoldable pub error_text : SendError → String
error_text e = let text = trim_space e.text in if text == "" then "provider send failed" else text
