-- ===== src/Proxy/Connection/Refinement.antt =====
-- internal/proxy/conn.go: the steps of a connection do to each request what the events do to its inbox.
use heimdall.Base.{
  ℕ, suc, ◌<◌, ◌≡◌, ◌≢◌, refl, ap, String, true, false, Option, none, some, ◌==◌, eqb, ltb,
  if◌then◌else◌, arith, Bool-cases, inl, inr, eq_iff, eq_refl, Option-cases, eqb_iff, ltb→lt,
}
use heimdall.Base.Result.{Result, ok, err, ok-injective}
use heimdall.Proxy.Protocol.{Frame}
use heimdall.Proxy.Connection.{
  ConnError, RequestStream, AgentConn, with_stream, set_pending, holds, new_stream, push_frame,
  unregister_request, signal_closed, fail_all_requests, add_request, register_unless,
}
use heimdall.Proxy.Connection.Inboxes.{
  inbox_state, inbox, Event, opened, given_up, failed, silent, accept, finish, after,
}
use heimdall.Proxy.Connection.Routing.{
  IsRouted, register-IsRouted, touch-IsRouted, unregister-IsRouted, fail-IsRouted,
}

abbrev pub Routed : AgentConn → Type 0
Routed c = IsRouted c.pending c.streams c.next

-- What a step owes: the agreement of map and streams, and the effect of the event on every inbox.
abbrev pub Does : AgentConn → Event → AgentConn → Type 0
Does c e c' = Routed c' × ((k : ℕ) → inbox c' k ≡ after e k (inbox c k))

holds-some : (o : Option ℕ) (h : ℕ) → holds o h ≡ true → o ≡ some h
holds-some none h held = ground (arith, held)
holds-some (some current) h held = ap some ((eqb_iff current h).0 held)

abbrev pub registered : String → AgentConn → AgentConn
registered id c = record c {
  pending = set_pending id (some c.next) c.pending;
  streams = with_stream c.next (new_stream id) c.streams;
  next = suc c.next;
}

add_request-ok :
    (id : String) (c c' : AgentConn) (h : ℕ)
    → add_request id (c.pending id) c ≡ (ok h, c')
    → (c.pending id ≡ none) × (c.next ≡ h) × (registered id c ≡ c')
add_request-ok id c c' h made = elim (Option-cases (c.pending id)) [
  | inl free ↦
      let parts : ◌≡◌ {A = Result ConnError ℕ × AgentConn} (ok c.next, registered id c) (ok h, c') =
        rw free at made in
      (free, ok-injective {E = ConnError} c.next h (ap (λ p. p.0) parts), ap (λ p. p.1) parts)
  | inr (current, busy) ↦
      let parts : ◌≡◌ {A = Result ConnError ℕ × AgentConn} (err (ConnError.in_flight id), c)
          (ok h, c') =
        rw busy at made in
      absurd (ground (arith, ap (λ p. p.0) parts))
]

pub register_unless-ok :
    (e : Option ConnError) (id : String) (c c' : AgentConn) (h : ℕ)
    → register_unless e id c ≡ (ok h, c')
    → (c.pending id ≡ none) × (c.next ≡ h) × (registered id c ≡ c')
register_unless-ok none id c c' h made = add_request-ok id c c' h made
register_unless-ok (some e) id c c' h made = absurd (ground (arith, ap (λ p. p.0) made))

pub registered-Does :
    (id : String) (c : AgentConn)
    → c.pending id ≡ none
    → Routed c
    → Does c (opened c.next id) (registered id c)
unfolding inbox
registered-Does id c free w = (
  register-IsRouted c.pending c.streams c.next id free w,
  λ k. elim (Bool-cases (eqb k c.next)) [
    | inl same ↦ let last : ltb k (suc c.next) ≡ true = ground (arith, same) in rw (same, last) refl
    | inr differs ↦
        let older : ltb k (suc c.next) ≡ ltb k c.next = ground (arith, differs) in
        rw (differs, older) refl
  ],
)

-- A step that changes one stream, which was there, changes that inbox.
pub touched-Does :
    (c : AgentConn) (h k : ℕ) (stream : RequestStream)
    → h < c.next
    → inbox (record c { streams = with_stream h stream c.streams }) k
      ≡ (if eqb k h then inbox_state stream else inbox c k)
unfolding inbox
touched-Does c h k stream below = elim (Bool-cases (eqb k h)) [
  | inl same ↦
      let there : ltb k c.next ≡ true = ground (arith, same, below) in rw (same, there) refl
  | inr differs ↦ rw differs refl
]

pub signal_closed-Does :
    (c : AgentConn) (h : ℕ) → h < c.next → Routed c → Does c (given_up h) (signal_closed h c)
unfolding signal_closed
signal_closed-Does c h below w =
    let shut : RequestStream = record (c.streams h) { closed = true } in
    (
      touch-IsRouted c.pending c.streams c.next h shut refl refl (λ never. ground (arith, never)) w,
      λ k. touched-Does c h k shut below,
    )

pub unregister_request-Does :
    (c : AgentConn) (id : String) (h : ℕ)
    → (c.streams h).closed ≡ true
    → Routed c
    → Does c silent (unregister_request id h c)
unfolding unregister_request inbox
unregister_request-Does c id h shut w = elim (Bool-cases (holds (c.pending id) h)) [
  | inl mine ↦
      rw mine (
        unregister-IsRouted c.pending c.streams c.next id h (holds-some _ h mine) shut w,
        λ k. refl,
      )
  | inr lost ↦ rw lost (w, λ k. refl)
]

-- Of a stream whose channel is closed nothing more is to come; what it holds is still read.
ended :
    (stream : RequestStream)
    → inbox_state (record stream { frames_closed = true }) ≡ finish (inbox_state stream)
ended stream = elim (Bool-cases stream.closed) [
  | inl shut ↦ rw shut refl
  | inr unclosed ↦ elim (Bool-cases stream.frames_closed) [
    | inl over ↦ rw (unclosed, over) refl
    | inr runs ↦ rw (unclosed, runs) refl
  ]
]

over_already :
    (stream : RequestStream)
    → (stream.closed ≡ false → stream.frames_closed ≢ false)
    → inbox_state stream ≡ finish (inbox_state stream)
over_already stream never = elim (Bool-cases stream.closed) [
  | inl shut ↦ rw shut refl
  | inr unclosed ↦ elim (Bool-cases stream.frames_closed) [
    | inl over ↦ rw (unclosed, over) refl
    | inr runs ↦ absurd (never unclosed runs)
  ]
]

-- A stream that takes frames is the one that the map holds.
held_if_live :
    (c : AgentConn) (k : ℕ)
    → Routed c
    → k < c.next
    → holds (c.pending (c.streams k).id) k ≡ false
    → (c.streams k).closed ≡ false
    → (c.streams k).frames_closed ≢ false
held_if_live c k w below lost unclosed runs =
    let held : c.pending (c.streams k).id ≡ some k = w.current k below unclosed runs in
    let mine : eqb k k ≡ false = rw held at lost in ground (arith, mine)

pub fail_all_requests-Does :
    (c : AgentConn) (e : ConnError) → Routed c → Does c failed (fail_all_requests e c)
unfolding fail_all_requests inbox
fail_all_requests-Does c e w = (
  fail-IsRouted c.pending c.streams c.next w,
  λ k. elim (Bool-cases (ltb k c.next)) [
    | inl there ↦ elim (Bool-cases (holds (c.pending (c.streams k).id) k)) [
      | inl mine ↦ rw (there, mine) (ended (c.streams k))
      | inr lost ↦
          rw (there, lost)
            (over_already (c.streams k) (held_if_live c k w (ltb→lt k c.next there) lost))
    ]
    | inr unopened_yet ↦ rw unopened_yet refl
  ],
)

-- A frame leaves alone every inbox that the map does not hold for its ID.
pub elsewhere :
    (c : AgentConn) (f : Frame) (k : ℕ)
    → Routed c
    → c.pending f.id ≢ some k
    → accept f (inbox c k) ≡ inbox c k
unfolding inbox
elsewhere c f k w lost = elim (Bool-cases (ltb k c.next)) [
  | inr unopened_yet ↦ rw unopened_yet refl
  | inl there ↦ elim (Bool-cases (c.streams k).closed) [
    | inl shut ↦ rw (there, shut) refl
    | inr unclosed ↦ elim (Bool-cases (c.streams k).frames_closed) [
      | inl over ↦ rw (there, unclosed, over) refl
      | inr runs ↦
          let held = w.current k (ltb→lt k c.next there) unclosed runs in
          elim (Bool-cases ((c.streams k).id == f.id)) [
            | inl same ↦ absurd (lost (rw ((eq_iff (c.streams k).id f.id).0 same) at held))
            | inr differs ↦ rw (there, unclosed, runs, differs) refl
          ]
    ]
  ]
]

-- A frame put into the channel of an open stream of its ID is in the inbox.
pub delivered :
    (f : Frame) (stream : RequestStream)
    → stream.id ≡ f.id
    → stream.frames_closed ≡ false
    → inbox_state (push_frame f stream) ≡ accept f (inbox_state stream)
delivered f stream same runs = elim (Bool-cases stream.closed) [
  | inl shut ↦ rw shut refl
  | inr unclosed ↦
      let match : (stream.id == f.id) ≡ true = rw same (eq_refl f.id) in
      rw (unclosed, runs, match) refl
]
