-- ===== src/Proxy/Connection.antt =====
-- internal/proxy/conn.go: a connection to an agent, and the requests in flight on it. Channels, mutexes
-- and goroutines are steps between the states of one connection; a request stream is its number.
pub mod Inboxes
pub mod Routing
pub mod Refinement
pub mod Steps
pub mod Runs
use heimdall.Base.{
  ℕ, suc, String, Bool, true, false, Option, none, some, List, [], ◌∷◌, ◌++◌, ◌==◌, eqb, ltb, not,
  ◌&&◌, if◌then◌else◌, length,
}
use heimdall.Base.Text.{trim_space}
use heimdall.Base.Result.{Result, ok, err}
use heimdall.Proxy.Protocol.{Frame, JsonCodec, WireError, encode_frame, recv_frame}

pub data ConnError : Type 0 where
  request_mode id_required stopped connection_closed stream_closed write_failed : ConnError
  not_encoded unreadable loop_failed : WireError → ConnError
  in_flight : String → ConnError

-- `frames` is what the channel holds, `frames_closed` that the channel is closed, `closed` that the
-- reader has closed the stream.
pub record RequestStream : Type 0 where
  pub id : String
  pub frames : List Frame
  pub frames_closed : Bool
  pub closed : Bool

-- `incoming` and `outgoing` are the bytes to read and the bytes written, `streams` holds the streams
-- with a number below `next`.
pub record AgentConn : Type 0 where
  pub incoming : List ℕ
  pub outgoing : List ℕ
  pub pending : String → Option ℕ
  pub request_mode_on : Bool
  pub request_loop_err : Option ConnError
  pub streams : ℕ → RequestStream
  pub next : ℕ

abbrev no_stream : RequestStream
no_stream = record { id = ""; frames = []; frames_closed = false; closed = false }

unfoldable pub new_agent_conn : List ℕ → AgentConn
new_agent_conn incoming = record {
  incoming = incoming;
  outgoing = [];
  pending = λ id. none;
  request_mode_on = false;
  request_loop_err = none;
  streams = λ h. no_stream;
  next = 0;
}

abbrev pub with_stream : ℕ → RequestStream → (ℕ → RequestStream) → ℕ → RequestStream
with_stream h stream streams k = if eqb k h then stream else streams k

abbrev pub set_pending : String → Option ℕ → (String → Option ℕ) → String → Option ℕ
set_pending id h pending j = if j == id then h else pending j

-- The current request of an ID is this one.
abbrev pub holds : Option ℕ → ℕ → Bool
holds none h = false
holds (some current) h = eqb current h

abbrev pub write_frame :
    Bool → AgentConn → Result WireError (List ℕ) → Result ConnError (Unit {0}) × AgentConn
write_frame written c (err e) = (err (not_encoded e), c)
write_frame false c (ok buf) = (err write_failed, c)
write_frame true c (ok buf) = (ok tt, record c { outgoing = c.outgoing ++ buf })

-- `Send`; `written` says whether the network takes the bytes.
unfoldable pub send : JsonCodec → Bool → Frame → AgentConn → Result ConnError (Unit {0}) × AgentConn
send codec written frame c = write_frame written c (encode_frame codec frame)

abbrev pub as_conn_error : Result WireError Frame → Result ConnError Frame
as_conn_error (ok f) = ok f
as_conn_error (err e) = err (unreadable e)

-- `Recv`, which the request loop shuts out.
unfoldable pub recv : JsonCodec → AgentConn → Result ConnError Frame × AgentConn
recv codec c =
    if c.request_mode_on
    then (err request_mode, c)
    else let read = recv_frame codec c.incoming in
      (as_conn_error read.0, record c { incoming = read.1 })

abbrev pub new_stream : String → RequestStream
new_stream id = record { id = id; frames = []; frames_closed = false; closed = false }

abbrev pub add_request : String → Option ℕ → AgentConn → Result ConnError ℕ × AgentConn
add_request id (some current) c = (err (in_flight id), c)
add_request id none c = (
  ok c.next,
  record c {
    pending = set_pending id (some c.next) c.pending;
    streams = with_stream c.next (new_stream id) c.streams;
    next = suc c.next;
  },
)

abbrev pub register_unless : Option ConnError → String → AgentConn → Result ConnError ℕ × AgentConn
register_unless (some e) id c = (err e, c)
register_unless none id c = add_request id (c.pending id) c

-- `registerRequest`, which answers the number of the new stream.
unfoldable pub register_request : String → AgentConn → Result ConnError ℕ × AgentConn
register_request id c = register_unless c.request_loop_err id c

-- `unregisterRequest` of a stream: only the request that is current for the ID goes.
unfoldable pub unregister_request : String → ℕ → AgentConn → AgentConn
unregister_request id h c =
    if holds (c.pending id) h then record c { pending = set_pending id none c.pending } else c

-- The first half of `Close`, `close(r.closed)`.
unfoldable pub signal_closed : ℕ → AgentConn → AgentConn
signal_closed h c = record c {
  streams = with_stream h (record (c.streams h) { closed = true }) c.streams;
}

-- `RequestStream.Close`, once.
unfoldable pub close_request : ℕ → AgentConn → AgentConn
close_request h c =
    if (c.streams h).closed then c else unregister_request (c.streams h).id h (signal_closed h c)

abbrev pub push_frame : Frame → RequestStream → RequestStream
push_frame f stream = record stream { frames = stream.frames ++ f ∷ [] }

abbrev pub dispatch_to : Bool → Frame → Option ℕ → AgentConn → AgentConn
dispatch_to drops f none c = c
dispatch_to true f (some h) c = unregister_request f.id h c
dispatch_to false f (some h) c = record c {
  streams = with_stream h (push_frame f (c.streams h)) c.streams;
}

-- `dispatchRequestFrame`; `drops` says that its select takes the branch of a closed stream.
unfoldable pub dispatch_request_frame : Bool → Frame → AgentConn → AgentConn
dispatch_request_frame drops f c = dispatch_to drops f (c.pending f.id) c

abbrev pub select_ready : Bool → (ℕ → RequestStream) → Option ℕ → Bool
select_ready drops streams none = true
select_ready true streams (some h) = (streams h).closed
select_ready false streams (some h) = ltb (length (streams h).frames) 16

-- The select can take the branch: the stream is closed, or its channel has room for one of 16.
unfoldable pub can_dispatch : Bool → Frame → AgentConn → Bool
can_dispatch drops f c = select_ready drops c.streams (c.pending f.id)

abbrev pub keep_error : Option ConnError → ConnError → Option ConnError
keep_error none e = some e
keep_error (some first) e = some first

-- `failAllRequests`: the channel of every pending request is closed.
unfoldable pub fail_all_requests : ConnError → AgentConn → AgentConn
fail_all_requests e c = record c {
  request_loop_err = keep_error c.request_loop_err e;
  pending = λ id. none;
  streams = λ h.
      if holds (c.pending (c.streams h).id) h
      then record (c.streams h) { frames_closed = true }
      else c.streams h;
}

-- `AgentConn.Close`
unfoldable pub close_conn : AgentConn → AgentConn
close_conn c = fail_all_requests connection_closed (record c { incoming = [] })

abbrev loop_err : Option ConnError → ConnError
loop_err none = stopped
loop_err (some e) = e

abbrev pub no_frame : Bool → Bool → Option ConnError → Option (Result ConnError Frame)
no_frame true closed e = some (err (loop_err e))
no_frame false true e = some (err stream_closed)
no_frame false false e = none

abbrev pub take_frame : ℕ → List Frame → AgentConn → Option (Result ConnError Frame) × AgentConn
take_frame h [] c =
    (no_frame (c.streams h).frames_closed (c.streams h).closed c.request_loop_err, c)
take_frame h (f ∷ fs) c = (
  some (ok f),
  record c { streams = with_stream h (record (c.streams h) { frames = fs }) c.streams },
)

-- `RequestStream.Recv`: what the reader gets, when it need not wait. Of a closed stream that holds a frame
-- Go gives either the frame or the error; here the frame.
unfoldable pub request_recv : ℕ → AgentConn → Option (Result ConnError Frame) × AgentConn
request_recv h c = take_frame h (c.streams h).frames c

abbrev pub start_request_loop : AgentConn → AgentConn
start_request_loop c = record c { request_mode_on = true }

abbrev pub finish_send :
    ℕ → Result ConnError (Unit {0}) × AgentConn → Result ConnError ℕ × AgentConn
finish_send h (ok _, c) = (ok h, c)
finish_send h (err e, c) = (err e, close_request h c)

abbrev pub send_registered :
    JsonCodec → Bool → Frame → Result ConnError ℕ × AgentConn → Result ConnError ℕ × AgentConn
send_registered codec written frame (err e, c) = (err e, c)
send_registered codec written frame (ok h, c) = finish_send h (send codec written frame c)

unfoldable pub send_request : JsonCodec → Bool → Frame → AgentConn → Result ConnError ℕ × AgentConn
send_request codec written frame c =
    let id = trim_space frame.id in
    if id == ""
    then (err id_required, c)
    else send_registered codec written (record frame { id = id })
        (register_request id (start_request_loop c))
