-- ===== src/Proxy/Resolver/Reported.antt =====
-- internal/proxy/connector_action_resumer.go: what the agent has to report for an approved action to count
-- as executed.
use heimdall.Base.{
  ℕ, ◌≡◌, ◌≢◌, refl, sym, ◌∙◌, subst, ◌⊎◌, inl, inr, String, Bool, true, false, List, [], ◌∷◌, ◌==◌,
  ◌||◌, arith, eq_iff, Bool-cases,
}
use heimdall.Base.Text.{differs}
use heimdall.Base.Result.{Result, ok, err, ok-injective, ◌>>=◌}
use heimdall.Database.{GovernedAction, Request}
use heimdall.Proxy.Protocol.{Frame}
use heimdall.Proxy.Resolver.{
  Agents, ResolveError, no_reply, not_executed, agent_unknown, not_running, not_connected, not_sent,
  await_result, resume, check_running, map_error,
}

-- A frame that says nothing of how the action ended.
abbrev pub IsPassedOver : Frame → Type 0
IsPassedOver f =
    (f.frame_type ≢ "tool_executed") × (f.frame_type ≢ "tool_failed") × (f.frame_type ≢ "error")

-- Of the frames that say how the action ended, the first says that the tool was executed.
unfoldable pub SaysExecuted : List Frame → Type 0
SaysExecuted [] = ⊥
SaysExecuted (f ∷ replies) =
    (f.frame_type ≡ "tool_executed") ⊎ (IsPassedOver f × SaysExecuted replies)

abbrev pub Ends : Type 0 → Result ResolveError (Unit {0}) → Type 0
Ends Executed done =
    ((done ≡ ok tt) × Executed) ⊎ ((e : ResolveError) × (done ≡ err e) × (Executed → ⊥))

-- A later report counts where this frame is passed over.
passed_over :
    (f : Frame) (replies : List Frame) (done : Result ResolveError (Unit {0}))
    → IsPassedOver f
    → Ends (SaysExecuted replies) done
    → Ends (SaysExecuted (f ∷ replies)) done
unfolding SaysExecuted
passed_over f replies done passed (inl (good, said)) = inl (good, inr (passed, said))
passed_over f replies done passed (inr (e, bad, unsaid)) = inr (e, bad, still)
  where
    still : SaysExecuted (f ∷ replies) → ⊥
    still (inl is) = passed.0 is
    still (inr (_, said)) = unsaid said

-- Nor does one where this frame says that the action failed.
ended_by :
    (f : Frame) (replies : List Frame)
    → (f.frame_type == "tool_executed") ≡ false
    → (f.frame_type == "tool_failed" || f.frame_type == "error") ≡ true
    → SaysExecuted (f ∷ replies)
    → ⊥
unfolding SaysExecuted
ended_by f replies other bad (inl is) = differs f.frame_type "tool_executed" other is
ended_by f replies other bad (inr ((_, not_failed, not_error), _)) =
    ground (arith, bad, eq_iff f.frame_type "tool_failed", eq_iff f.frame_type "error")

await_result-Ends : (replies : List Frame) → Ends (SaysExecuted replies) (await_result replies)
unfolding await_result SaysExecuted
await_result-Ends [] = inr (no_reply, refl, λ x. x)
await_result-Ends (f ∷ replies) = elim (Bool-cases (f.frame_type == "tool_executed")) [
  | inl is ↦ rw is (inl (refl, inl ((eq_iff _ _).0 is)))
  | inr other ↦ elim (Bool-cases (f.frame_type == "tool_failed" || f.frame_type == "error")) [
    | inl bad ↦ rw (other, bad) (inr (not_executed, refl, ended_by f replies other bad))
    | inr fine ↦
        rw (other, fine)
          (passed_over f replies _
            (
              differs _ _ other,
              (λ is. ground (arith, fine, eq_iff f.frame_type "tool_failed")),
              (λ is. ground (arith, fine, eq_iff f.frame_type "error")),
            )
            (await_result-Ends replies))
  ]
]

-- The agent is running and reached, and what it answers to the resume frame says that it executed the tool.
abbrev pub IsExecuted : Agents → Request → GovernedAction → ℕ → Type 0
IsExecuted agents request action agent =
    (agents.lookup agent ≡ ok true)
    × (agents.connect agent ≡ ok tt)
    × (replies : List Frame) × (agents.send_resume request action ≡ ok replies)
    × SaysExecuted replies

module _ (agents : Agents) (request : Request) (action : GovernedAction) (agent : ℕ) where
  abbrev EndsSo : Result ResolveError (Unit {0}) → Type 0
  EndsSo = Ends (IsExecuted agents request action agent)

  sent-Ends :
      (r : Result String (List Frame))
      → agents.lookup agent ≡ ok true
      → agents.connect agent ≡ ok tt
      → agents.send_resume request action ≡ r
      → EndsSo (map_error not_sent r >>= await_result)
  sent-Ends (err e) running reached is = inr (not_sent e, refl, λ x. absurd (cc (is, x.3)))
  sent-Ends (ok replies) running reached is = elim (await_result-Ends replies) [
    | inl (good, said) ↦ inl (good, (running, reached, replies, is, said))
    | inr (e, bad, unsaid) ↦ inr (
      e,
      bad,
      λ (_, _, others, also, said).
          unsaid
            (subst SaysExecuted (ok-injective {E = String} others replies (sym also ∙ is)) said),
    )
  ]

  reached-Ends :
      (r : Result String (Unit {0}))
      → agents.lookup agent ≡ ok true
      → agents.connect agent ≡ r
      → EndsSo (
          map_error not_connected r >>= λ _.
          map_error not_sent (agents.send_resume request action) >>= await_result)
  reached-Ends (err e) running is = inr (not_connected e, refl, λ x. absurd (cc (is, x.1)))
  reached-Ends (ok u) running is = sent-Ends (agents.send_resume request action) running is refl

  running-Ends :
      (r : Result String Bool)
      → agents.lookup agent ≡ r
      → EndsSo (
          map_error agent_unknown r >>= check_running >>= λ _.
          map_error not_connected (agents.connect agent) >>= λ _.
          map_error not_sent (agents.send_resume request action) >>= await_result)
  running-Ends (err e) is = inr (agent_unknown e, refl, λ x. absurd (cc (is, x.0)))
  running-Ends (ok false) is = inr (not_running, refl, λ x. absurd (ground (arith, is, x.0)))
  running-Ends (ok true) is = reached-Ends (agents.connect agent) is refl

  pub resume-Ends : EndsSo (resume agents request action agent)
  unfolding resume
  resume-Ends = running-Ends (agents.lookup agent) refl
