-- ===== src/Proxy/Connection/Inboxes.antt =====
-- internal/proxy/conn.go: what the requests of a connection are to their readers. Each request is an inbox
-- for the frames with its ID; the map, the locks and the channels are out of sight.
use heimdall.Base.{
  ℕ, ◌<◌, ◌≡◌, String, Bool, true, Option, none, some, List, [], ◌∷◌, ◌++◌, ◌==◌, eqb, ltb,
  if◌then◌else◌,
}
use heimdall.Base.Result.{ok, err}
use heimdall.Proxy.Protocol.{Frame, JsonCodec, WireError, recv_frame}
use heimdall.Proxy.Connection.{
  RequestStream, AgentConn, register_request, unregister_request, signal_closed,
  dispatch_request_frame, can_dispatch, fail_all_requests, request_recv, loop_failed, close_conn,
  send,
}

-- An inbox not opened yet; one that takes frames; one that takes no more; one its reader gave up.
pub data Inbox : Type 0 where
  unopened : Inbox
  listening : String → List Frame → Inbox
  finished : List Frame → Inbox
  dropped : Inbox

abbrev pub inbox_state : RequestStream → Inbox
inbox_state stream =
    if stream.closed
    then dropped
    else if stream.frames_closed
    then finished stream.frames
    else listening stream.id stream.frames

-- The inbox of a request, in a state of the connection.
unfoldable pub inbox : AgentConn → ℕ → Inbox
inbox c k = if ltb k c.next then inbox_state (c.streams k) else unopened

pub data Event : Type 0 where
  opened : ℕ → String → Event
  arrived : Frame → Event
  taken : ℕ → Frame → Event
  given_up : ℕ → Event
  failed silent : Event

-- What an event does to an inbox: a frame goes to every open inbox of its ID, behind those before it.
abbrev pub accept : Frame → Inbox → Inbox
accept f (listening id unread) =
    if id == f.id then listening id (unread ++ f ∷ []) else listening id unread
accept f i = i

abbrev pub without_first : Inbox → Inbox
without_first (listening id (f ∷ unread)) = listening id unread
without_first (finished (f ∷ unread)) = finished unread
without_first i = i

abbrev pub finish : Inbox → Inbox
finish (listening id unread) = finished unread
finish i = i

abbrev pub after : Event → ℕ → Inbox → Inbox
after (opened h id) k i = if eqb k h then listening id [] else i
after (arrived f) k i = accept f i
after (taken h f) k i = if eqb k h then without_first i else i
after (given_up h) k i = if eqb k h then dropped else i
after failed k i = finish i
after silent k i = i

abbrev pub first_unread : Inbox → Option Frame
first_unread (listening id (f ∷ unread)) = some f
first_unread (finished (f ∷ unread)) = some f
first_unread i = none

-- The steps of a connection whose request loop runs: a request is registered; the loop reads a frame and
-- hands it on, or reads an error and fails all requests; a reader takes a frame; a reader closes its
-- stream, and then takes it off the map; a frame is sent; the connection is closed.
pub data Step (codec : JsonCodec) : AgentConn → Event → AgentConn → Type 0 where
  registers :
      (c c' : AgentConn) (id : String) (h : ℕ)
      → register_request id c ≡ (ok h, c')
      → Step codec c (opened h id) c'
  dispatches :
      (c : AgentConn) (drops : Bool) (f : Frame) (left : List ℕ)
      → recv_frame codec c.incoming ≡ (ok f, left)
      → can_dispatch drops f c ≡ true
      → Step codec c (arrived f) (dispatch_request_frame drops f (record c { incoming = left }))
  loop_fails :
      (c : AgentConn) (e : WireError) (left : List ℕ)
      → recv_frame codec c.incoming ≡ (err e, left)
      → Step codec c failed (fail_all_requests (loop_failed e) (record c { incoming = left }))
  takes :
      (c c' : AgentConn) (h : ℕ) (f : Frame)
      → h < c.next
      → request_recv h c ≡ (some (ok f), c')
      → Step codec c (taken h f) c'
  signals : (c : AgentConn) (h : ℕ) → h < c.next → Step codec c (given_up h) (signal_closed h c)
  unregisters :
      (c : AgentConn) (h : ℕ)
      → (c.streams h).closed ≡ true
      → Step codec c silent (unregister_request (c.streams h).id h c)
  sends :
      (c : AgentConn) (written : Bool) (f : Frame) → Step codec c silent (send codec written f c).1
  closes : (c : AgentConn) → Step codec c failed (close_conn c)
