-- ===== src/Agent/Safety.antt =====
-- cmd/heimdall-agent/openclaw.go: what every run of the agent on a message guarantees.
use heimdall.Base.{
  ◌+◌, ◌≤◌, ◌≡◌, refl, ◌⊎◌, inl, inr, Bool, true, false, Option, List, [], ◌∷◌, ◌++◌, arith, All,
  All-append,
}
use heimdall.Base.Result.{Result}
use heimdall.Agent.{Agent}
use heimdall.Agent.Run.{
  AgentFrame, World, Run, fresh, taken, done_chunk, runtime_event, error, session_halt,
  tool_blocked, approval_required, tool_executed, tool_failed, config_ack,
}
use heimdall.Agent.Loop.{UrlError, Prompt, forward_to_open_claw, max_tool_iterations}
use heimdall.Agent.Permitted.{IsPermitted}
use heimdall.Agent.Respects.{ends_run, Spoken, Respects, forward_to_open_claw-Over}

All-taken : (P : AgentFrame → Type 0) (b : Bool) (f : AgentFrame) → P f → All P (taken b f)
All-taken P true f h = (h, tt)
All-taken P false f h = tt

unspoken : (a : Agent) (f : AgentFrame) → ends_run f ≡ false → Spoken a f
unspoken a (done_chunk content) q = absurd (ground (arith, q))
unspoken a (runtime_event kind status) q = tt
unspoken a (error code) q = tt
unspoken a (session_halt token) q = tt
unspoken a (tool_blocked name) q = tt
unspoken a (approval_required name) q = tt
unspoken a (tool_executed name connector) q = tt
unspoken a (tool_failed name connector) q = tt
unspoken a config_ack q = tt

-- What becomes of the last frame: it is the last of the frames that go out, or it is refused.
abbrev pub Delivered : List AgentFrame → AgentFrame → Bool → Type 0
Delivered sent last taken_last =
    ((taken_last ≡ true)
      × (before : List AgentFrame) × (sent ≡ before ++ last ∷ [])
      × All (λ f. ends_run f ≡ false) before)
    ⊎ ((taken_last ≡ false) × All (λ f. ends_run f ≡ false) sent)

-- The last frame of the run ends it, and is the only one that does; the model was asked ten times at most.
abbrev pub AnsweredOnce : Run → Type 0
AnsweredOnce run =
    (before : List AgentFrame) × (last : AgentFrame) × (run.handed ≡ before ++ last ∷ [])
    × All (λ f. ends_run f ≡ false) before
    × (ends_run last ≡ true)
    × (run.asked ≤ max_tool_iterations)
    × Delivered run.sent last (run.takes before last)

delivered :
    (sent : List AgentFrame) (f : AgentFrame) (b : Bool)
    → All (λ x. ends_run x ≡ false) sent
    → Delivered (sent ++ taken b f) f b
delivered sent f true quiet = inl (refl, sent, refl, quiet)
delivered sent f false quiet = inr (refl, All-append (λ x. ends_run x ≡ false) sent [] tt quiet)

module _ (w : World) (a : Agent) where
  IsPermitted-Respects :
      Respects w a
        (λ n run. All (IsPermitted w a) run.calls)
        (λ run. All (IsPermitted w a) run.calls)
  IsPermitted-Respects = record {
    quiet = λ n f run q h. h;
    final = λ n f run q s h. h;
    asks = λ n run h. h;
    calls = λ n run call p h. All-append (IsPermitted w a) run.calls (call ∷ []) (p, tt) h;
  }

  -- Everything that a run hands to a tool server is a call that the configuration permits.
  pub forward_to_open_claw-IsPermitted :
      (takes : List AgentFrame → AgentFrame → Bool) (url : Result UrlError (Unit {0}))
      (prompt : Option Prompt)
      → All (IsPermitted w a) (forward_to_open_claw w a url prompt (fresh takes)).calls
  forward_to_open_claw-IsPermitted takes url prompt =
      forward_to_open_claw-Over w a _ _ IsPermitted-Respects url prompt (fresh takes) tt

  Spoken-Respects : Respects w a (λ n run. All (Spoken a) run.sent) (λ run. All (Spoken a) run.sent)
  Spoken-Respects = record {
    quiet = λ n f run q h.
        All-append (Spoken a) run.sent (taken (run.takes run.handed f) f)
          (All-taken (Spoken a) (run.takes run.handed f) f (unspoken a f q)) h;
    final = λ n f run q s h.
        All-append (Spoken a) run.sent (taken (run.takes run.handed f) f)
          (All-taken (Spoken a) (run.takes run.handed f) f s) h;
    asks = λ n run h. h;
    calls = λ n run call p h. h;
  }

  -- No text that a run gives out at its end contains a canary token.
  pub forward_to_open_claw-Spoken :
      (takes : List AgentFrame → AgentFrame → Bool) (url : Result UrlError (Unit {0}))
      (prompt : Option Prompt)
      → All (Spoken a) (forward_to_open_claw w a url prompt (fresh takes)).sent
  forward_to_open_claw-Spoken takes url prompt =
      forward_to_open_claw-Over w a _ _ Spoken-Respects url prompt (fresh takes) tt

  -- The rounds that are left and the requests made are at most ten, and a run that goes on has not ended.
  AnsweredOnce-Respects :
      Respects w a
        (λ n run.
          All (λ f. ends_run f ≡ false) run.handed
          × All (λ f. ends_run f ≡ false) run.sent
          × (run.asked + n ≤ max_tool_iterations))
        AnsweredOnce
  AnsweredOnce-Respects = record {
    quiet = λ n f run q (handed, sent, few). (
      All-append _ run.handed (f ∷ []) (q, tt) handed,
      All-append _ run.sent (taken (run.takes run.handed f) f)
          (All-taken (λ x. ends_run x ≡ false) (run.takes run.handed f) f q) sent,
      few,
    );
    final = λ n f run q s (handed, sent, few).
        let asked : run.asked ≤ max_tool_iterations = omega (arith, few) in
        (run.handed, f, refl, handed, q, asked, delivered run.sent f (run.takes run.handed f) sent);
    asks = λ n run (handed, sent, few). (handed, sent, omega (arith, few));
    calls = λ n run call p h. h;
  }

  -- A run hands the connection one frame that ends it, as the last of all its frames, and asks the model ten
  -- times at most, whatever the model and the tool servers do. That frame goes out, after frames that do not
  -- end the run, or the connection refuses it, and then no frame that ends the run goes out.
  pub forward_to_open_claw-AnsweredOnce :
      (takes : List AgentFrame → AgentFrame → Bool) (url : Result UrlError (Unit {0}))
      (prompt : Option Prompt)
      → AnsweredOnce (forward_to_open_claw w a url prompt (fresh takes))
  forward_to_open_claw-AnsweredOnce takes url prompt =
      forward_to_open_claw-Over w a _ _ AnsweredOnce-Respects url prompt (fresh takes)
        (tt, tt, omega arith)
