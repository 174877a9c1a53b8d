-- ===== src/Proxy/Pool/Push.antt =====
-- internal/proxy/push.go: when a configuration is acknowledged, and when it cannot be.
use heimdall.Base.{
  ℕ, suc, ◌≡◌, refl, sym, ◌∙◌, subst, String, Bool, true, false, Option, none, some, List, ◌++◌,
  ◌==◌, if◌then◌else◌, arith, eq_refl,
}
use heimdall.Base.Result.{Result, ok, err}
use heimdall.Proxy.Protocol.{Frame, JsonCodec, WireError, encode_frame}
use heimdall.Base.Text.{trim_space}
use heimdall.Proxy.Connection.{
  ConnError, AgentConn, write_frame, send, recv, request_mode, finish_send, register_unless,
  send_registered, send_request, close_request, unregister_request, signal_closed, register_request,
  holds, start_request_loop, add_request,
}
use heimdall.Proxy.Pool.{
  ConnPool, PushError, get, remove, push_config, config_frame, after_send, wait_for_ack, settle,
  on_reply,
}

-- A push that ended in an error and took the connection out of the pool.
abbrev pub Lost : String → Option (Result PushError (Unit {0})) × ConnPool → Type 0
Lost agent (r, pool) = ((e : PushError) × (r ≡ some (err e))) × (pool.conns agent ≡ none)

removed : (agent : String) (pool : ConnPool) → (remove agent pool).conns agent ≡ none
unfolding remove
removed agent pool = rw (eq_refl agent) refl

recv-refused :
    (codec : JsonCodec) (c : AgentConn)
    → c.request_mode_on ≡ true
    → recv codec c ≡ (err request_mode, c)
unfolding recv
recv-refused codec c mode = ground (arith, mode)

sent_in_request_mode :
    (codec : JsonCodec) (agent id : String) (fuel : ℕ) (pool : ConnPool) (c : AgentConn)
    (written : Bool) (encoded : Result WireError (List ℕ))
    → c.request_mode_on ≡ true
    → Lost agent (after_send codec agent id (suc fuel) pool (write_frame written c encoded))
unfolding wait_for_ack
sent_in_request_mode codec agent id fuel pool c written (err e) mode = ((_, refl), removed agent _)
sent_in_request_mode codec agent id fuel pool c false (ok buf) mode = ((_, refl), removed agent _)
sent_in_request_mode codec agent id fuel pool c true (ok buf) mode =
    let sent : AgentConn = record c { outgoing = c.outgoing ++ buf } in
    subst (λ r. Lost agent (settle agent pool (on_reply id (wait_for_ack codec id fuel) r)))
      (sym (recv-refused codec sent mode)) ((_, refl), removed agent _)

write_ok-mode :
    (written : Bool) (c : AgentConn) (buf : List ℕ)
    → (write_frame written c (ok buf)).1.request_mode_on ≡ c.request_mode_on
write_ok-mode true c buf = refl
write_ok-mode false c buf = refl

either_way :
    (m : Bool) (b : Bool) (x y : AgentConn)
    → x.request_mode_on ≡ m
    → y.request_mode_on ≡ m
    → (if b then x else y).request_mode_on ≡ m
either_way m true x y h k = h
either_way m false x y h k = k

add_request-mode :
    (o : Option ℕ) (id : String) (c : AgentConn)
    → (add_request id o c).1.request_mode_on ≡ c.request_mode_on
add_request-mode none id c = refl
add_request-mode (some current) id c = refl

module _ (codec : JsonCodec) (written : Bool) where
  -- Whatever becomes of a request, the connection is in request mode after it.
  write_frame-mode :
      (c : AgentConn) (r : Result WireError (List ℕ))
      → (write_frame written c r).1.request_mode_on ≡ c.request_mode_on
  write_frame-mode c (err e) = refl
  write_frame-mode c (ok buf) = write_ok-mode written c buf

  finish_send-mode :
      (h : ℕ) (r : Result ConnError (Unit {0}) × AgentConn)
      → (finish_send h r).1.request_mode_on ≡ r.1.request_mode_on
  unfolding close_request unregister_request signal_closed
  finish_send-mode h (ok _, c) = refl
  finish_send-mode h (err e, c) =
      either_way c.request_mode_on (c.streams h).closed c _ refl
        (either_way c.request_mode_on (holds (c.pending (c.streams h).id) h) _ _ refl refl)

  register_unless-mode :
      (e : Option ConnError) (id : String) (c : AgentConn)
      → (register_unless e id c).1.request_mode_on ≡ c.request_mode_on
  register_unless-mode (some e) id c = refl
  register_unless-mode none id c = add_request-mode (c.pending id) id c

  send_registered-mode :
      (frame : Frame) (r : Result ConnError ℕ × AgentConn)
      → (send_registered codec written frame r).1.request_mode_on ≡ r.1.request_mode_on
  unfolding send
  send_registered-mode frame (err e, c) = refl
  send_registered-mode frame (ok h, c) =
      finish_send-mode h (send codec written frame c)
      ∙ write_frame-mode c (encode_frame codec frame)

  send_request-mode :
      (frame : Frame) (c : AgentConn)
      → (trim_space frame.id == "") ≡ false
      → (send_request codec written frame c).1.request_mode_on ≡ true
  unfolding send_request register_request
  send_request-mode frame c named = rw named (
      send_registered-mode _ (register_request (trim_space frame.id) (start_request_loop c))
      ∙ register_unless-mode c.request_loop_err (trim_space frame.id) (start_request_loop c))

-- Once a request with an ID has gone out on the pooled connection of an agent, a push of a configuration
-- to that agent ends in an error, whatever the agent answers, and the connection is out of the pool.
pub push_config-Lost :
    (codec : JsonCodec) (taken written : Bool) (request : Frame) (before : AgentConn)
    (dial : Result String (List ℕ)) (meanwhile : Option AgentConn) (fuel : ℕ) (agent id : String)
    (payload : List ℕ) (pool : ConnPool)
    → (trim_space request.id == "") ≡ false
    → pool.conns agent ≡ some (send_request codec taken request before).1
    → Lost agent (push_config codec dial meanwhile written (suc fuel) agent id (ok payload) pool)
unfolding push_config get send
push_config-Lost codec taken written request before dial meanwhile fuel agent id payload pool named
      pooled =
    let c = (send_request codec taken request before).1 in
    rw pooled (
      sent_in_request_mode codec agent id fuel pool c written
        (encode_frame codec (config_frame id payload))
        (send_request-mode codec taken request before named))
