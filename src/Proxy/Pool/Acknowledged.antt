-- ===== src/Proxy/Pool/Acknowledged.antt =====
-- internal/proxy/push.go: the reply to a configuration is found among the frames of the agent.
use heimdall.Base.{
  ℕ, zero, suc, ◌<◌, ◌≡◌, ◌≢◌, refl, sym, ◌∙◌, ap, String, true, false, none, some, List, [], ◌∷◌,
  ◌++◌, ◌==◌, arith, eq_refl, eq_iff, length, All, Bool-cases, inl, inr,
}
use mathlib.Core.List.{append_assoc}
use heimdall.Base.Text.{differs}
use heimdall.Base.Result.{Result, ok, err, ok-injective}
use heimdall.Proxy.Protocol.{Frame, JsonCodec, WireError, encode_frame, recv_frame}
use heimdall.Proxy.Protocol.Roundtrip.{
  Faithful, encode_frames, append_frame-ok, recv_frame-encode_frame,
}
use heimdall.Proxy.Connection.{AgentConn, new_agent_conn, send, recv}
use heimdall.Proxy.Pool.{
  ConnPool, PushError, rejected, unexpected, get, push_config, config_frame, wait_for_ack, settle,
  keep_conn, reply_result,
}

recv-reads :
    (codec : JsonCodec) (c : AgentConn) (f : Frame) (left : List ℕ)
    → c.request_mode_on ≡ false
    → recv_frame codec c.incoming ≡ (ok f, left)
    → recv codec c ≡ (ok f, record c { incoming = left })
unfolding recv
recv-reads codec c f left mode read = rw (mode, read) refl

-- The first of several frames that were sent is what is received.
recv-sent :
    (codec : JsonCodec) (f : Frame) (buf more wire rest : List ℕ) (c : AgentConn)
    → c.request_mode_on ≡ false
    → c.incoming ≡ wire ++ rest
    → Faithful codec f
    → encode_frame codec f ≡ ok buf
    → buf ++ more ≡ wire
    → recv codec c ≡ (ok f, record c { incoming = more ++ rest })
recv-sent codec f buf more wire rest c mode held faithful one is =
    let split : c.incoming ≡ buf ++ (more ++ rest) =
      held ∙ ap (λ w. w ++ rest) (sym is) ∙ append_assoc buf more rest in
    recv-reads codec c f (more ++ rest) mode (
      ap (recv_frame codec) split ∙ recv_frame-encode_frame codec f buf (more ++ rest) faithful one)

-- Frames with other IDs are passed over.
wait_for_ack-replied :
    (codec : JsonCodec) (id : String) (others : List Frame) (reply : Frame) (wire rest : List ℕ)
    (fuel : ℕ) (c : AgentConn)
    → c.request_mode_on ≡ false
    → c.incoming ≡ wire ++ rest
    → All (λ f. (f.id == id) ≡ false) others
    → reply.id ≡ id
    → All (Faithful codec) (others ++ reply ∷ [])
    → encode_frames codec (others ++ reply ∷ []) ≡ ok wire
    → length others < fuel
    → wait_for_ack codec id fuel c ≡ (some (reply_result reply), record c { incoming = rest })
unfolding wait_for_ack encode_frames
wait_for_ack-replied codec id others reply wire rest zero c mode held skipped mine faithful sent
      enough =
    absurd (omega (arith, enough))
wait_for_ack-replied codec id [] reply wire rest (suc fuel) c mode held skipped mine (first, _) sent
      enough =
    let (buf, more, one, next, is) = append_frame-ok (encode_frame codec reply) (ok []) wire sent in
    let nothing : [] ≡ more = ok-injective {E = WireError} [] more next in
    let read : recv codec c ≡ (ok reply, record c { incoming = rest }) =
      rw (sym nothing) at (recv-sent codec reply buf more wire rest c mode held first one is) in
    rw (read, mine, eq_refl id) refl
wait_for_ack-replied codec id (f ∷ others) reply wire rest (suc fuel) c mode held (skip, skipped)
      mine (first, faithful) sent enough =
    let (buf, more, one, next, is) =
      append_frame-ok (encode_frame codec f) (encode_frames codec (others ++ reply ∷ [])) wire
        sent in
    rw (recv-sent codec f buf more wire rest c mode held first one is, skip)
      (wait_for_ack-replied codec id others reply more rest fuel
        (record c { incoming = more ++ rest }) mode refl skipped mine faithful next
        (omega (arith, enough)))

-- A reply, good or bad, leaves the connection in the pool.
settle-reply_result :
    (agent : String) (pool : ConnPool) (reply : Frame) (c : AgentConn)
    → settle agent pool (some (reply_result reply), c)
      ≡ (some (reply_result reply), keep_conn agent c pool)
settle-reply_result agent pool reply c = elim (Bool-cases (reply.frame_type == "error")) [
  | inl bad ↦ rw bad refl
  | inr fine ↦ elim (Bool-cases (reply.frame_type == "config_ack")) [
    | inl acked ↦ rw (fine, acked) refl
    | inr strange ↦ rw (fine, strange) refl
  ]
]

-- What a push is to answer, by the reply to it.
pub data Answers (reply : Frame) : Result PushError (Unit {0}) → Type 0 where
  acked : reply.frame_type ≡ "config_ack" → Answers reply (ok tt)
  refused : reply.frame_type ≡ "error" → Answers reply (err (rejected reply.payload))
  strange :
      reply.frame_type ≢ "config_ack"
      → reply.frame_type ≢ "error"
      → Answers reply (err (unexpected reply.frame_type))

reply_result-Answers : (reply : Frame) → Answers reply (reply_result reply)
reply_result-Answers reply = elim (Bool-cases (reply.frame_type == "error")) [
  | inl bad ↦ rw bad (refused ((eq_iff _ _).0 bad))
  | inr fine ↦ elim (Bool-cases (reply.frame_type == "config_ack")) [
    | inl ack ↦ rw (fine, ack) (acked ((eq_iff _ _).0 ack))
    | inr other ↦ rw (fine, other) (strange (differs _ _ other) (differs _ _ fine))
  ]
]

-- A push of a configuration to an agent that has no connection yet dials one and, past frames with other
-- IDs, comes to the first reply with the ID of its own frame: it succeeds if that is a config_ack, fails
-- with the payload of an error frame, and fails with the type of any other frame. The connection is then
-- in the pool, read up to that reply.
pub push_config-replied :
    (codec : JsonCodec) (others : List Frame) (reply : Frame) (wire rest sent : List ℕ) (fuel : ℕ)
    (agent id : String) (payload : List ℕ) (pool : ConnPool)
    → pool.conns agent ≡ none
    → All (λ f. (f.id == id) ≡ false) others
    → reply.id ≡ id
    → All (Faithful codec) (others ++ reply ∷ [])
    → encode_frames codec (others ++ reply ∷ []) ≡ ok wire
    → encode_frame codec (config_frame id payload) ≡ ok sent
    → length others < fuel
    → let c = record (new_agent_conn rest) { outgoing = sent } in
      let after = push_config codec (ok (wire ++ rest)) none true fuel agent id (ok payload) pool in
      (answer : Result PushError (Unit {0})) × (after.0 ≡ some answer)
      × Answers reply answer
      × (after.1.conns agent ≡ some c)
unfolding push_config get send new_agent_conn
push_config-replied codec others reply wire rest sent fuel agent id payload pool free skipped mine
      faithful answers out enough =
    let c : AgentConn = record (new_agent_conn (wire ++ rest)) { outgoing = sent } in
    let c_read : AgentConn = record c { incoming = rest } in
    let waited =
      wait_for_ack-replied codec id others reply wire rest fuel c refl refl skipped mine faithful
        answers enough in
    rw (free, out, waited, settle-reply_result agent _ reply c_read)
      (reply_result reply, refl, reply_result-Answers reply, rw (eq_refl agent) refl)
