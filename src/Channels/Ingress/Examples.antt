-- ===== src/Channels/Ingress/Examples.antt =====
-- internal/channels: a message that is let in, kept out, and let in again once its row is gone.
use heimdall.Base.{◌≡◌, ◌≢◌, refl, some, List, [], ◌∷◌, arith}
use heimdall.Base.Result.{ok}
use heimdall.Base.Session.{Session}
use heimdall.Channels.Ingress.{
  ChannelLink, LinkState, IngressTables, IngressMessage, accepted, get_link_by_identity,
  insert_idempotency, earliest, remove_id, delete_rows, delete_expired_messages, process,
}
use heimdall.Channels.Ingress.Replayed.{Call, receives, cleans, as_tenant, step, run, process-once}

abbrev link : ChannelLink
link = record {
  id = 1;
  tenant_id = 7;
  user_id = 20;
  platform = "slack";
  platform_user_id = "U1";
  state = LinkState.verified;
}

abbrev session : Session IngressTables
session = record {
  tables = record { tenant = 7; next_id = 5; links = link ∷ []; messages = [] };
  now = 100;
  faults = [];
}

-- Its clock is ten hours ahead, and its row expires after a day.
abbrev message : IngressMessage
message = record {
  platform = "slack";
  platform_user_id = "U1";
  platform_message_id = "m";
  idempotency_key = "k";
  payload_fingerprint = "f";
  correlation_id = "c";
  occurred_at = 110;
  expires_at = 124;
}

enters : (process 24 100 (ok tt) message session).0.decision ≡ some accepted
unfolding process get_link_by_identity insert_idempotency
enters = refl

abbrev between : List Call
between = cleans 7 120 10 ∷ receives 7 24 120 (ok tt) message ∷ []

process-once_example :
    (process 24 121
      (ok tt)
      message
      (as_tenant 7 (run between (process 24 100 (ok tt) message session).1))).0.decision
    ≢ some accepted
process-once_example =
    process-once 24 100 (ok tt) message session 123 between 24 121 (ok tt) message tt enters
      (omega arith) (omega arith, (tt, tt)) refl refl

-- When the row has expired and is deleted, the message is still inside the replay window.
replayed :
    (process 24 130
      (ok tt)
      message
      (run (cleans 7 125 10 ∷ []) (process 24 100 (ok tt) message session).1)).0.decision
    ≡ some accepted
unfolding process get_link_by_identity insert_idempotency run step delete_expired_messages
    delete_rows earliest remove_id
replayed = refl
