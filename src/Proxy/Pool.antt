-- ===== src/Proxy/Pool.antt =====
-- internal/proxy/pool.go and push.go: the connections kept per agent, and a configuration sent over one.
pub mod Push
pub mod Acknowledged
use heimdall.Base.{
  ℕ, zero, suc, String, Bool, true, false, Option, none, some, List, [], ◌∷◌, ◌==◌, if◌then◌else◌,
}
use heimdall.Base.Result.{Result, ok, err}
use heimdall.Proxy.Protocol.{Frame, JsonCodec, WireError}
use heimdall.Proxy.Connection.{ConnError, AgentConn, new_agent_conn, send, recv, close_conn}

-- `closed` are the connections that the pool has closed.
pub record ConnPool : Type 0 where
  pub conns : String → Option AgentConn
  pub closed : List AgentConn

pub data PushError : Type 0 where
  not_connected not_marshaled : String → PushError
  not_sent not_acked : ConnError → PushError
  rejected : List ℕ → PushError
  unexpected : String → PushError

abbrev pub set_conn :
    String → Option AgentConn → (String → Option AgentConn) → String → Option AgentConn
set_conn agent c conns a = if a == agent then c else conns a

abbrev pub keep_conn : String → AgentConn → ConnPool → ConnPool
keep_conn agent c pool = record pool { conns = set_conn agent (some c) pool.conns }

-- The dialed connection, unless another goroutine has put one there in the meantime.
abbrev pub after_dial :
    String
    → Option AgentConn
    → ConnPool
    → Result String (List ℕ)
    → Result PushError AgentConn × ConnPool
after_dial agent meanwhile pool (err e) = (err (not_connected e), pool)
after_dial agent none pool (ok raw) =
    (ok (new_agent_conn raw), keep_conn agent (new_agent_conn raw) pool)
after_dial agent (some existing) pool (ok raw) = (
  ok existing,
  record (keep_conn agent existing pool) { closed = close_conn (new_agent_conn raw) ∷ pool.closed },
)

abbrev pub get_or_dial :
    Option AgentConn
    → Result PushError AgentConn × ConnPool
    → ConnPool
    → Result PushError AgentConn × ConnPool
get_or_dial (some c) dialed pool = (ok c, pool)
get_or_dial none dialed pool = dialed

-- `ConnPool.Get`; `dial` is what the transport answers, `meanwhile` what another goroutine has put there
-- by the time it does.
unfoldable pub get :
    String
    → Result String (List ℕ)
    → Option AgentConn
    → ConnPool
    → Result PushError AgentConn × ConnPool
get agent dial meanwhile pool =
    get_or_dial (pool.conns agent) (after_dial agent meanwhile pool dial) pool

abbrev pub close_taken : Option AgentConn → List AgentConn → List AgentConn
close_taken none closed = closed
close_taken (some c) closed = close_conn c ∷ closed

-- `ConnPool.Remove`
unfoldable pub remove : String → ConnPool → ConnPool
remove agent pool = record {
  conns = set_conn agent none pool.conns;
  closed = close_taken (pool.conns agent) pool.closed;
}

abbrev pub reply_result : Frame → Result PushError (Unit {0})
reply_result reply =
    if reply.frame_type == "error"
    then err (rejected reply.payload)
    else if reply.frame_type == "config_ack"
    then ok tt
    else err (unexpected reply.frame_type)

-- What the wait for the acknowledgement does with a reply; a reply with another ID is skipped.
abbrev pub on_reply :
    String
    → (AgentConn → Option (Result PushError (Unit {0})) × AgentConn)
    → Result ConnError Frame × AgentConn
    → Option (Result PushError (Unit {0})) × AgentConn
on_reply id next (err e, c) = (some (err (not_acked e)), c)
on_reply id next (ok reply, c) = if reply.id == id then (some (reply_result reply), c) else next c

unfoldable pub wait_for_ack :
    JsonCodec → String → ℕ → AgentConn → Option (Result PushError (Unit {0})) × AgentConn
wait_for_ack codec id zero c = (none, c)
wait_for_ack codec id (suc n) c = on_reply id (wait_for_ack codec id n) (recv codec c)

-- After the wait: a connection that could not be read leaves the pool.
abbrev pub settle :
    String
    → ConnPool
    → Option (Result PushError (Unit {0})) × AgentConn
    → Option (Result PushError (Unit {0})) × ConnPool
settle agent pool (some (err (not_acked e)), c) =
    (some (err (not_acked e)), remove agent (keep_conn agent c pool))
settle agent pool (r, c) = (r, keep_conn agent c pool)

abbrev pub after_send :
    JsonCodec
    → String
    → String
    → ℕ
    → ConnPool
    → Result ConnError (Unit {0}) × AgentConn
    → Option (Result PushError (Unit {0})) × ConnPool
after_send codec agent id fuel pool (err e, c) =
    (some (err (not_sent e)), remove agent (keep_conn agent c pool))
after_send codec agent id fuel pool (ok _, c) = settle agent pool (wait_for_ack codec id fuel c)

abbrev pub config_frame : String → List ℕ → Frame
config_frame id payload = record { frame_type = "config_update"; id = id; payload = payload }

-- A payload that JSON cannot write leaves the connection in the pool.
abbrev pub push_payload :
    JsonCodec
    → Bool
    → ℕ
    → String
    → String
    → Result String (List ℕ)
    → AgentConn
    → ConnPool
    → Option (Result PushError (Unit {0})) × ConnPool
push_payload codec written fuel agent id (err e) c pool = (some (err (not_marshaled e)), pool)
push_payload codec written fuel agent id (ok payload) c pool =
    after_send codec agent id fuel pool (send codec written (config_frame id payload) c)

abbrev pub push_over :
    JsonCodec
    → Bool
    → ℕ
    → String
    → String
    → Result String (List ℕ)
    → Result PushError AgentConn × ConnPool
    → Option (Result PushError (Unit {0})) × ConnPool
push_over codec written fuel agent id payload (err e, pool) = (some (err e), pool)
push_over codec written fuel agent id payload (ok c, pool) =
    push_payload codec written fuel agent id payload c pool

-- `PushConfig` of what `json.Marshal` makes of the configuration; `id` is the fresh ID of the frame,
-- `written` says whether the network takes its bytes, and `fuel` bounds the replies that are read.
unfoldable pub push_config :
    JsonCodec
    → Result String (List ℕ)
    → Option AgentConn
    → Bool
    → ℕ
    → String
    → String
    → Result String (List ℕ)
    → ConnPool
    → Option (Result PushError (Unit {0})) × ConnPool
push_config codec dial meanwhile written fuel agent id payload pool =
    push_over codec written fuel agent id payload (get agent dial meanwhile pool)
