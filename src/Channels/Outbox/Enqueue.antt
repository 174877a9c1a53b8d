-- ===== src/Channels/Outbox/Enqueue.antt =====
-- `EnqueueOutbound` of internal/channels/store.go. What reads a UUID, checks JSON and lowers a text
-- is not this repository's code, and is a parameter; so is no more than what the code relies on.
use heimdall.Base.{
  ℕ, zero, suc, String, Bool, ◌&&◌, Option, none, some, List, [], ◌∷◌, ◌++◌, any, eqb, ◌==◌,
  if◌then◌else◌,
}
use heimdall.Base.Text.{trim_space}
use heimdall.Base.Session.{Exec, pure, raise, statement, ◌>>=◌}
use heimdall.Database.{
  OutboxStatus, ChannelOutbox, Tables, Error, statement_failed, message_not_found,
  message_id_invalid, platform_empty, identity_empty, payload_required, payload_invalid,
}

pub record EnqueueOutboundParams : Type 0 where
  pub channel_message_id : String
  pub provider : String
  pub recipient_id : String
  pub payload : String
  pub max_attempts : ℕ

-- `if maxAttempts <= 0`
abbrev pub or_five : ℕ → ℕ
or_five zero = 5
or_five (suc n) = suc n

abbrev pub inserted_job : ℕ → String → String → String → ℕ → ℕ → ℕ → ℕ → ChannelOutbox
inserted_job message_id provider recipient_id payload max_attempts id tenant now = record {
  id = id;
  tenant_id = tenant;
  channel_message_id = message_id;
  provider = provider;
  recipient_id = recipient_id;
  payload = payload;
  status = OutboxStatus.pending;
  attempt_count = 0;
  max_attempts = max_attempts;
  next_attempt_at = now;
  last_error = none;
  locked_at = none;
  sent_at = none;
  created_at = now;
  updated_at = now;
}

abbrev pub has_message : ℕ → ℕ → List (ℕ × ℕ) → Bool
has_message id tenant rows = any (λ (row : ℕ × ℕ). eqb row.0 id && eqb row.1 tenant) rows

-- `INSERT … SELECT … FROM channel_messages`: no message of the tenant, no row.
abbrev pub insert_job : ℕ → (ℕ → ℕ → ℕ → ChannelOutbox) → ℕ → Tables → Option ChannelOutbox × Tables
insert_job message_id job now t =
    let row = job t.next_id t.tenant now in
    if has_message message_id t.tenant t.messages
    then (some row, record t { next_id = suc t.next_id; outbox = t.outbox ++ row ∷ [] })
    else (none, t)

abbrev pub or_no_message : Option ChannelOutbox → Exec Error Tables ChannelOutbox
or_no_message none = raise message_not_found
or_no_message (some o) = pure o

module _ (parse : String → Option ℕ) (valid : String → Bool) (to_lower : String → String) where
  unfoldable pub insert_outbound :
      ℕ → String → String → String → ℕ → Exec Error Tables ChannelOutbox
  insert_outbound message_id provider recipient_id payload max_attempts = do
    row ← statement statement_failed (
        insert_job message_id
          (inserted_job message_id provider recipient_id payload (or_five max_attempts)))
    or_no_message row

  -- The checks that follow the message id.
  unfoldable pub enqueue_message :
      Option ℕ → String → String → String → ℕ → Exec Error Tables ChannelOutbox
  unfolding insert_outbound
  enqueue_message none provider recipient_id payload max_attempts = raise message_id_invalid
  enqueue_message (some message_id) provider recipient_id payload max_attempts =
      if provider == ""
      then raise platform_empty
      else if recipient_id == ""
      then raise identity_empty
      else if payload == ""
      then raise payload_required
      else if valid payload
      then insert_outbound message_id provider recipient_id payload max_attempts
      else raise payload_invalid

  unfoldable pub enqueue_outbound : EnqueueOutboundParams → Exec Error Tables ChannelOutbox
  unfolding enqueue_message
  enqueue_outbound params =
      let message_id = trim_space params.channel_message_id in
      if message_id == ""
      then raise message_not_found
      else enqueue_message (parse message_id) (to_lower (trim_space params.provider))
          (trim_space params.recipient_id) params.payload params.max_attempts
