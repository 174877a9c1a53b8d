-- ===== src/Channels/Ingress.antt =====
-- internal/channels/ingress.go and the tables behind it in store.go: which messages of a chat provider are
-- let in. Every call is made in the context of one tenant, as cmd/heimdall/main.go wires it; the check of
-- the signature is a parameter and the audit log is left out.
mod Store
pub mod Verifiers
pub mod Once
pub mod History
pub mod Replayed
mod Examples
unfoldable pub use Store.*
use heimdall.Base.{
  ℕ, zero, suc, ◌+◌, ◌-◌, String, Bool, true, false, ◌&&◌, ◌||◌, not, Option, none, some, List, [],
  ◌∷◌, ◌++◌, ◌==◌, eqb, ltb, leb, any, if◌then◌else◌,
}
use heimdall.Base.Result.{Result, ok, err}
use heimdall.Base.Session.{Session, Exec, pure, raise, statement, ◌>>=◌}
use heimdall.Base.Table.{first_where}

pub data IngressDecision : Type 0 where
  accepted duplicate replay_blocked rejected_signature denied_unverified : IngressDecision

-- `IngressResult` beside the error; without a decision Go's is the empty text.
pub record IngressResult : Type 0 where
  pub decision : Option IngressDecision
  pub link : Option ChannelLink
  pub failure : Option IngressError

abbrev pub decided : IngressDecision → ChannelLink → IngressResult
decided d l = record { decision = some d; link = some l; failure = none }

abbrev pub refused : IngressDecision → Option ChannelLink → IngressError → IngressResult
refused d l e = record { decision = some d; link = l; failure = some e }

abbrev pub broken : IngressError → IngressResult
broken e = record { decision = none; link = none; failure = some e }

abbrev pub is_verified : LinkState → Bool
is_verified verified = true
is_verified state = false

-- `replayWindow > 0`, a time of the event, and a clock too far from it either way.
abbrev pub is_replay : ℕ → ℕ → ℕ → Bool
is_replay window now occurred =
    ltb 0 window
    && not (eqb occurred 0)
    && (ltb window (now - occurred) || ltb window (occurred - now))

abbrev pub after_insert :
    ChannelLink
    → Result IngressError Bool × Session IngressTables
    → IngressResult × Session IngressTables
after_insert l (err e, s) = (broken e, s)
after_insert l (ok true, s) = (decided accepted l, s)
after_insert l (ok false, s) = (decided duplicate l, s)

abbrev pub check_window :
    ℕ
    → ℕ
    → IngressMessage
    → ChannelLink
    → Session IngressTables
    → IngressResult × Session IngressTables
check_window window clock msg l s =
    if is_replay window clock msg.occurred_at
    then (decided replay_blocked l, s)
    else after_insert l (insert_idempotency msg s)

abbrev pub is_not_found : IngressError → Bool
is_not_found link_not_found = true
is_not_found e = false

abbrev pub after_link :
    ℕ
    → ℕ
    → IngressMessage
    → Result IngressError ChannelLink × Session IngressTables
    → IngressResult × Session IngressTables
after_link window clock msg (err e, s) =
    if is_not_found e then (refused denied_unverified none link_unverified, s) else (broken e, s)
after_link window clock msg (ok l, s) =
    if is_verified l.state
    then check_window window clock msg l s
    else (refused denied_unverified (some l) link_unverified, s)

-- `IngressGuard.Process` at the time `clock`; `signature` is the answer of the verifier.
unfoldable pub process :
    ℕ
    → ℕ
    → Result IngressError (Unit {0})
    → IngressMessage
    → Session IngressTables
    → IngressResult × Session IngressTables
process window clock (err e) msg s = (refused rejected_signature none e, s)
process window clock (ok _) msg s =
    after_link window clock msg (get_link_by_identity msg.platform msg.platform_user_id s)
