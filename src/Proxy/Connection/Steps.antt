-- ===== src/Proxy/Connection/Steps.antt =====
-- internal/proxy/conn.go: what each step of a connection does to the inboxes of its requests.
use heimdall.Base.{
  ℕ, ◌<◌, ◌≡◌, ◌≢◌, refl, sym, ◌∙◌, subst, ap, Bool, true, false, Option, none, some, List, [], ◌∷◌,
  eqb, arith, Bool-cases, inl, inr, eqb_iff, ◌⊎◌, lt→ltb,
}
use heimdall.Base.Result.{Result, ok, err}
use heimdall.Proxy.Protocol.{Frame, JsonCodec, WireError, encode_frame}
use heimdall.Proxy.Connection.{
  ConnError, RequestStream, AgentConn, with_stream, push_frame, loop_failed, register_request,
  dispatch_to, dispatch_request_frame, select_ready, can_dispatch, request_recv, take_frame,
  no_frame, write_frame, send, close_conn, connection_closed,
}
use heimdall.Proxy.Connection.Inboxes.{
  dropped, inbox_state, inbox, Event, opened, arrived, taken, silent, accept, without_first,
  first_unread, Step, registers, dispatches, loop_fails, takes, signals, unregisters, sends, closes,
}
use heimdall.Proxy.Connection.Routing.{touch-IsRouted}
use heimdall.Proxy.Connection.Refinement.{
  Routed, Does, elsewhere, delivered, fail_all_requests-Does, unregister_request-Does,
  signal_closed-Does, touched-Does, registered-Does, register_unless-ok,
}

inbox-opened : (c : AgentConn) (k : ℕ) → k < c.next → inbox c k ≡ inbox_state (c.streams k)
unfolding inbox
inbox-opened c k below = rw (lt→ltb k c.next below) refl

inbox-closed :
    (c : AgentConn) (k : ℕ) → k < c.next → (c.streams k).closed ≡ true → inbox c k ≡ dropped
inbox-closed c k below shut = inbox-opened c k below ∙ rw shut refl

dispatch_to-Does :
    (drops : Bool) (f : Frame) (o : Option ℕ) (c : AgentConn)
    → c.pending f.id ≡ o
    → select_ready drops c.streams o ≡ true
    → Routed c
    → Does c (arrived f) (dispatch_to drops f o c)
dispatch_to-Does drops f none c free ready w =
    (w, λ k. sym (elsewhere c f k w (λ held. ground (arith, sym free ∙ held))))
dispatch_to-Does true f (some h) c held shut w =
    let gone = unregister_request-Does c f.id h shut w in
    (
      gone.0,
      λ k. elim (Bool-cases (eqb k h)) [
        | inl same ↦
            let is : k ≡ h = (eqb_iff k h).0 same in
            let out : inbox c k ≡ dropped = rw is (inbox-closed c h (w.known f.id h held) shut) in
            gone.1 k ∙ out ∙ sym (ap (accept f) out)
        | inr differs ↦
            gone.1 k ∙ sym (elsewhere c f k w (λ mine. ground (arith, differs, sym held ∙ mine)))
      ],
    )
dispatch_to-Does false f (some h) c held room w = (
  touch-IsRouted c.pending c.streams c.next h (push_frame f (c.streams h)) refl refl
      (λ open_. open_) w,
  λ k. elim (Bool-cases (eqb k h)) [
    | inl same ↦
        let is : k ≡ h = (eqb_iff k h).0 same in
        let before : inbox c k ≡ inbox_state (c.streams h) =
          rw is (inbox-opened c h (w.known f.id h held)) in
        touched-Does c h k (push_frame f (c.streams h)) (w.known f.id h held)
        ∙ rw (same, before) (delivered f (c.streams h) (w.named f.id h held) (w.live f.id h held))
    | inr differs ↦
        touched-Does c h k (push_frame f (c.streams h)) (w.known f.id h held)
        ∙ rw differs (sym (elsewhere c f k w (λ mine. ground (arith, differs, sym held ∙ mine))))
  ],
)

-- The reader gets the first unread frame of its inbox, unless it has given the inbox up.
abbrev pub Reads : AgentConn → Event → Type 0
Reads c (taken h f) = (inbox c h ≡ dropped) ⊎ (first_unread (inbox c h) ≡ some f)
Reads c e = Unit

some_ok-injective :
    (g f : Frame) → ◌≡◌ {A = Option (Result ConnError Frame)} (some (ok g)) (some (ok f)) → g ≡ f
some_ok-injective g f same = cc

no_frame-err :
    (ended closed : Bool) (e : Option ConnError) (f : Frame) → no_frame ended closed e ≢ some (ok f)
no_frame-err true closed e f same = ground (arith, same)
no_frame-err false true e f same = ground (arith, same)
no_frame-err false false e f same = ground (arith, same)

popped :
    (stream : RequestStream) (f : Frame) (rest : List Frame)
    → stream.frames ≡ f ∷ rest
    → inbox_state (record stream { frames = rest }) ≡ without_first (inbox_state stream)
popped stream f rest held = elim (Bool-cases stream.closed) [
  | inl shut ↦ rw shut refl
  | inr unclosed ↦ elim (Bool-cases stream.frames_closed) [
    | inl over ↦ rw (unclosed, over, held) refl
    | inr runs ↦ rw (unclosed, runs, held) refl
  ]
]

first_read :
    (stream : RequestStream) (f : Frame) (rest : List Frame)
    → stream.frames ≡ f ∷ rest
    → (inbox_state stream ≡ dropped) ⊎ (first_unread (inbox_state stream) ≡ some f)
first_read stream f rest held = elim (Bool-cases stream.closed) [
  | inl shut ↦ inl (rw shut refl)
  | inr unclosed ↦ elim (Bool-cases stream.frames_closed) [
    | inl over ↦ inr (rw (unclosed, over, held) refl)
    | inr runs ↦ inr (rw (unclosed, runs, held) refl)
  ]
]

take_frame-ok :
    (h : ℕ) (fs : List Frame) (c c' : AgentConn) (f : Frame)
    → take_frame h fs c ≡ (some (ok f), c')
    → (rest : List Frame) × (fs ≡ f ∷ rest)
      × (record c { streams = with_stream h (record (c.streams h) { frames = rest }) c.streams }
          ≡ c')
take_frame-ok h [] c c' f made = absurd (
    no_frame-err (c.streams h).frames_closed (c.streams h).closed c.request_loop_err f
      (ap (λ p. p.0) made))
take_frame-ok h (g ∷ fs) c c' f made =
    let same : g ≡ f = some_ok-injective g f (ap (λ p. p.0) made) in
    (fs, rw same refl, ap (λ p. p.1) made)

request_recv-Does :
    (h : ℕ) (c c' : AgentConn) (f : Frame)
    → h < c.next
    → request_recv h c ≡ (some (ok f), c')
    → Routed c
    → Does c (taken h f) c' × Reads c (taken h f)
unfolding request_recv
request_recv-Does h c c' f below made w =
    let (rest, held, is) = take_frame-ok h (c.streams h).frames c c' f made in
    let stream : RequestStream = record (c.streams h) { frames = rest } in
    let was = inbox-opened c h below in
    subst (λ d. Does c (taken h f) d × Reads c (taken h f)) is
      (
        (
          touch-IsRouted c.pending c.streams c.next h stream refl refl (λ unclosed. unclosed) w,
          λ k. elim (Bool-cases (eqb k h)) [
            | inl same ↦
                let number : k ≡ h = (eqb_iff k h).0 same in
                let before : inbox c k ≡ inbox_state (c.streams h) = rw number was in
                touched-Does c h k stream below
                ∙ rw (same, before) (popped (c.streams h) f rest held)
            | inr differs ↦ touched-Does c h k stream below ∙ rw differs refl
          ],
        ),
        rw was (first_read (c.streams h) f rest held),
      )

write_frame-Does :
    (written : Bool) (c : AgentConn) (r : Result WireError (List ℕ))
    → Routed c
    → Does c silent (write_frame written c r).1
unfolding inbox
write_frame-Does written c (err e) w = (w, λ k. refl)
write_frame-Does false c (ok buf) w = (w, λ k. refl)
write_frame-Does true c (ok buf) w = (w, λ k. refl)

-- A step of the connection keeps the map and the streams in agreement, does to the inbox of every request
-- what its event says, and gives a reader the first unread frame of the inbox.
pub Step-Does :
    (codec : JsonCodec) (c c' : AgentConn) (e : Event)
    → Routed c
    → Step codec c e c'
    → Does c e c' × Reads c e
unfolding dispatch_request_frame can_dispatch register_request inbox send close_conn
Step-Does codec _ _ _ w (registers c c' id h made) =
    let (free, number, is) = register_unless-ok c.request_loop_err id c c' h made in
    (
      subst (λ n. Does c (opened n id) c') number
          (subst (λ d. Does c (opened c.next id) d) is (registered-Does id c free w)),
      tt,
    )
Step-Does codec _ _ _ w (dispatches c drops f left read ready) =
    (dispatch_to-Does drops f (c.pending f.id) (record c { incoming = left }) refl ready w, tt)
Step-Does codec _ _ _ w (loop_fails c e left read) =
    (fail_all_requests-Does (record c { incoming = left }) (loop_failed e) w, tt)
Step-Does codec _ _ _ w (takes c c' h f below made) = request_recv-Does h c c' f below made w
Step-Does codec _ _ _ w (signals c h below) = (signal_closed-Does c h below w, tt)
Step-Does codec _ _ _ w (unregisters c h shut) =
    (unregister_request-Does c (c.streams h).id h shut w, tt)
Step-Does codec _ _ _ w (sends c written f) =
    (write_frame-Does written c (encode_frame codec f) w, tt)
Step-Does codec _ _ _ w (closes c) =
    (fail_all_requests-Does (record c { incoming = [] }) connection_closed w, tt)
