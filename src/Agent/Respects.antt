-- ===== src/Agent/Respects.antt =====
-- cmd/heimdall-agent/openclaw.go: what holds of a run all along, and what holds of it at its end.
use heimdall.Base.{
  ℕ, zero, suc, ◌≡◌, refl, String, Bool, true, false, Option, none, some, List, [], ◌∷◌, ◌++◌, ◌==◌,
  Bool-cases, inl, inr, All,
}
use heimdall.Base.Map.{get}
use heimdall.Base.Result.{Result, ok, err}
use heimdall.Agent.{Agent, AgentConnector, check_canary, resolve_connector, validate_tool_call}
use heimdall.Agent.Mcp.{McpError}
use heimdall.Agent.Run.{
  ToolCall, Choice, ChatMessage, AgentFrame, runtime_event, error, session_halt, done_chunk,
  tool_blocked, approval_required, tool_executed, tool_failed, config_ack, World, Call, Run, emit,
  emit_run_failed, halt, OpenClawError, call_open_claw, Progress, ended, going, validate_all,
  execute_call, execute_calls, make_call, govern, after_call, after_scan, with_connector,
  holds_back, stop_governed, and_then,
}
use heimdall.Agent.Loop.{
  UrlError, Prompt, initial_messages, continue_with, after_validation, with_calls, scanned,
  on_reply, iterate, start, forward_to_open_claw, max_tool_iterations,
}
use heimdall.Agent.Permitted.{IsPermitted, IsPermitted-made, validate_all-ok}

-- The frames after which a run is over. The control plane goes on reading after some of them.
abbrev pub ends_run : AgentFrame → Bool
ends_run (runtime_event kind status) = false
ends_run (tool_executed name connector) = false
ends_run (tool_failed name connector) = false
ends_run config_ack = false
ends_run f = true

-- A text is given out only where no canary token is in it.
abbrev pub Spoken : Agent → AgentFrame → Type 0
Spoken a (done_chunk content) = check_canary a content ≡ none
Spoken a f = Unit

-- `Going n` holds of a run with `n` rounds left, `Over` of one that has ended.
pub record Respects (w : World) (a : Agent) (Going : ℕ → Run → Type 0) (Over : Run → Type 0)
    : Type 0 where
  pub quiet :
      (n : ℕ) (f : AgentFrame) (run : Run) → ends_run f ≡ false → Going n run → Going n (emit f run)
  pub final :
      (n : ℕ) (f : AgentFrame) (run : Run)
      → ends_run f ≡ true
      → Spoken a f
      → Going n run
      → Over (emit f run)
  pub asks :
      (n : ℕ) (run : Run) → Going (suc n) run → Going n (record run { asked = suc run.asked })
  pub calls :
      (n : ℕ) (run : Run) (call : Call)
      → IsPermitted w a call
      → Going n run
      → Going n (record run { calls = run.calls ++ call ∷ [] })

module _ (w : World) (a : Agent) (Going : ℕ → Run → Type 0) (Over : Run → Type 0)
    (r : Respects w a Going Over) where
  At : ℕ → Progress → Type 0
  At n (ended run) = Over run
  At n (going messages run) = Going n run

  halt-Over : (n : ℕ) (token : String) (run : Run) → Going n run → Over (halt token run)
  halt-Over n token run h =
      r.final n (session_halt token) (emit_run_failed run) refl tt (r.quiet n _ run refl h)

  after_call-At :
      (n : ℕ) (tc : ToolCall) (connector : AgentConnector) (messages : List ChatMessage) (run : Run)
      (result : Result McpError String)
      → Going n run
      → At n (after_call a tc connector messages run result)
  unfolding At
  after_call-At n tc connector messages run (err e) h = r.quiet n _ run refl h
  after_call-At n tc connector messages run (ok result) h = scan (check_canary a result)
    where
      scan : (o : Option String) → At n (after_scan tc connector result messages run o)
      scan (some token) = halt-Over n token run h
      scan none = r.quiet n _ run refl h

  stop_governed-Over :
      (n : ℕ) (tc : ToolCall) (decision : String) (run : Run)
      → Going n run
      → Over (stop_governed tc decision run)
  stop_governed-Over n tc decision run h = elim (Bool-cases (decision == "block")) [
    | inl blocks ↦ rw blocks (r.final n (tool_blocked tc.name) _ refl tt (r.quiet n _ run refl h))
    | inr waits ↦
        rw waits (r.final n (approval_required tc.name) _ refl tt (r.quiet n _ run refl h))
  ]

  govern-At :
      (n : ℕ) (tc : ToolCall) (connector : AgentConnector) (messages : List ChatMessage) (run : Run)
      → validate_tool_call w.params a tc.name tc.arguments ≡ ok tt
      → resolve_connector a.connectors tc.name ≡ some connector
      → Going n run
      → At n (govern w a tc connector messages run)
  unfolding govern make_call At
  govern-At n tc connector messages run valid found h =
      elim (Bool-cases (holds_back (get tc.name connector.governed_tools))) [
        | inl held ↦ rw held (stop_governed-Over n tc _ run h)
        | inr free ↦ rw free (
            after_call-At n tc connector messages _ _
              (r.calls n run _ (IsPermitted-made w a _ valid found free) h))
      ]

  execute_call-At :
      (n : ℕ) (tc : ToolCall) (messages : List ChatMessage) (run : Run)
      → validate_tool_call w.params a tc.name tc.arguments ≡ ok tt
      → Going n run
      → At n (execute_call w a tc messages run)
  unfolding execute_call At
  execute_call-At n tc messages run valid h = resolved (resolve_connector a.connectors tc.name) refl
    where
      resolved :
          (o : Option AgentConnector)
          → resolve_connector a.connectors tc.name ≡ o
          → At n (with_connector w a tc messages run o)
      resolved none found = r.quiet n (tool_failed tc.name "") run refl h
      resolved (some connector) found = govern-At n tc connector messages run valid found h

  and_then-At :
      (n : ℕ) (p : Progress) (f : List ChatMessage → Run → Progress)
      → At n p
      → ((messages : List ChatMessage) (run : Run) → Going n run → At n (f messages run))
      → At n (and_then p f)
  unfolding At
  and_then-At n (ended run) f h k = h
  and_then-At n (going messages run) f h k = k messages run h

  execute_calls-At :
      (n : ℕ) (calls : List ToolCall) (messages : List ChatMessage) (run : Run)
      → All (λ tc. validate_tool_call w.params a tc.name tc.arguments ≡ ok tt) calls
      → Going n run
      → At n (execute_calls w a calls messages run)
  unfolding execute_calls At
  execute_calls-At n [] messages run valid h = h
  execute_calls-At n (tc ∷ calls) messages run (valid, others) h =
      and_then-At n (execute_call w a tc messages run) (execute_calls w a calls)
        (execute_call-At n tc messages run valid h)
        (λ later now k. execute_calls-At n calls later now others k)

  continue_with-Over :
      (n : ℕ) (p : Progress) (next : List ChatMessage → Run → Run)
      → At n p
      → ((messages : List ChatMessage) (run : Run) → Going n run → Over (next messages run))
      → Over (continue_with next p)
  unfolding At
  continue_with-Over n (ended run) next h k = h
  continue_with-Over n (going messages run) next h k = k messages run h

  on_reply-Over :
      (n : ℕ) (next : List ChatMessage → Run → Run) (messages : List ChatMessage) (run : Run)
      (reply : Result OpenClawError Choice)
      → ((later : List ChatMessage) (now : Run) → Going n now → Over (next later now))
      → Going n run
      → Over (on_reply w a next messages run reply)
  on_reply-Over n next messages run (err e) k h =
      r.final n (error "openclaw_error") (emit_run_failed run) refl tt (r.quiet n _ run refl h)
  on_reply-Over n next messages run (ok choice) k h = scan (check_canary a choice.content) refl
    where
      validated :
          (result : Result String (Unit {0}))
          → validate_all w a choice.tool_calls ≡ result
          → Over (after_validation w a next choice messages run result)
      validated (err name) same = r.final n (tool_blocked name) run refl tt h
      validated (ok u) same =
          continue_with-Over n _ next
            (execute_calls-At n choice.tool_calls _ _ (validate_all-ok w a choice.tool_calls same)
              (r.quiet n (runtime_event "sessions_yield" "pending") run refl h))
            k

      calls :
          (tcs : List ToolCall)
          → check_canary a choice.content ≡ none
          → Over (with_calls w a next choice messages run tcs)
      calls [] clean = r.final n (done_chunk choice.content) _ refl clean (r.quiet n _ run refl h)
      calls (tc ∷ tcs) clean = validated (validate_all w a choice.tool_calls) refl

      scan :
          (o : Option String)
          → check_canary a choice.content ≡ o
          → Over (scanned w a next choice messages run o)
      scan none clean = calls choice.tool_calls clean
      scan (some token) found = halt-Over n token run h

  iterate-Over :
      (n : ℕ) (messages : List ChatMessage) (run : Run)
      → Going n run
      → Over (iterate w a n messages run)
  unfolding iterate
  iterate-Over zero messages run h =
      r.final zero (error "max_iterations") (emit_run_failed run) refl tt
        (r.quiet zero (runtime_event "run.failed" "failed") run refl h)
  iterate-Over (suc n) messages run h =
      on_reply-Over n (iterate w a n) messages _ (call_open_claw w run.asked messages)
        (iterate-Over n) (r.asks n run h)

  pub forward_to_open_claw-Over :
      (url : Result UrlError (Unit {0})) (prompt : Option Prompt) (run : Run)
      → Going max_tool_iterations run
      → Over (forward_to_open_claw w a url prompt run)
  unfolding forward_to_open_claw
  forward_to_open_claw-Over (err e) prompt run h =
      r.final max_tool_iterations (error "invalid_config") run refl tt h
  forward_to_open_claw-Over (ok u) none run h =
      r.final max_tool_iterations (error "invalid_message") run refl tt h
  forward_to_open_claw-Over (ok u) (some prompt) run h = begin (initial_messages prompt)
    where
      begin : (o : Option (List ChatMessage)) → Over (start w a run o)
      begin none = r.final max_tool_iterations (error "invalid_message") run refl tt h
      begin (some messages) =
          iterate-Over max_tool_iterations messages _
            (r.quiet max_tool_iterations (runtime_event "run.started" "pending") run refl h)
