-- ===== src/Agent/Loop.antt =====
-- cmd/heimdall-agent/openclaw.go, security.go and the frames that agent.go hands to them: a prompt and its
-- rounds of tool calls, an approved action that is resumed, and a new configuration.
use heimdall.Base.{
  ℕ, zero, suc, String, Bool, ◌||◌, Option, none, some, List, [], ◌∷◌, ◌++◌, ◌==◌, if◌then◌else◌,
  length,
}
use heimdall.Base.Text.{trim_space}
use heimdall.Base.Result.{Result, ok, err}
use heimdall.Agent.{Agent, AgentConnector, check_canary, resolve_connector_for_action}
use heimdall.Agent.Mcp.{McpError, call_tool}
use heimdall.Agent.Run.{
  ToolCall, Choice, ChatMessage, plain, assistant, runtime_event, error, done_chunk, tool_blocked,
  tool_executed, tool_failed, config_ack, World, Call, Run, emit, emit_run_failed, halt,
  OpenClawError, call_open_claw, Progress, ended, going, validate_all, execute_calls,
}

-- What `url.Parse` and `net.ParseIP` make of an address.
pub record ParsedUrl : Type 0 where
  pub scheme : String
  pub host : String
  pub hostname : String
  pub is_localhost : Bool
  pub is_loopback : Bool

pub data UrlError : Type 0 where
  url_required url_invalid url_incomplete host_required not_loopback : UrlError

abbrev pub check_host : ParsedUrl → Result UrlError (Unit {0})
check_host url =
    if trim_space url.hostname == ""
    then err host_required
    else if url.is_localhost || url.is_loopback
    then ok tt
    else err not_loopback

abbrev pub check_url : Bool → Option ParsedUrl → Result UrlError (Unit {0})
check_url allow_remote none = err url_invalid
check_url allow_remote (some url) =
    if trim_space url.scheme == "" || trim_space url.host == ""
    then err url_incomplete
    else if allow_remote
    then ok tt
    else check_host url

unfoldable pub validate_open_claw_url :
    (String → Option ParsedUrl) → String → Bool → Result UrlError (Unit {0})
validate_open_claw_url parse raw allow_remote =
    let trimmed = trim_space raw in
    if trimmed == "" then err url_required else check_url allow_remote (parse trimmed)

-- The payload of a message frame.
pub record Prompt : Type 0 where
  pub role : String
  pub content : String
  pub messages : List (String × String)

unfoldable pub keep_messages : List (String × String) → List ChatMessage
keep_messages [] = []
keep_messages ((role, content) ∷ items) =
    let rest = keep_messages items in
    if trim_space role == "" || trim_space content == ""
    then rest
    else plain (trim_space role) (trim_space content) ∷ rest

abbrev pub or_single : Prompt → List ChatMessage → Option (List ChatMessage)
or_single prompt (message ∷ messages) = some (message ∷ messages)
or_single prompt [] =
    if trim_space prompt.role == "" || trim_space prompt.content == ""
    then none
    else some (plain (trim_space prompt.role) (trim_space prompt.content) ∷ [])

unfoldable pub initial_messages : Prompt → Option (List ChatMessage)
initial_messages prompt = or_single prompt (keep_messages prompt.messages)

abbrev pub continue_with : (List ChatMessage → Run → Run) → Progress → Run
continue_with next (ended run) = run
continue_with next (going messages run) = next messages run

abbrev pub after_validation :
    World
    → Agent
    → (List ChatMessage → Run → Run)
    → Choice
    → List ChatMessage
    → Run
    → Result String (Unit {0})
    → Run
after_validation w a next choice messages run (err name) = emit (tool_blocked name) run
after_validation w a next choice messages run (ok _) = continue_with next (
    execute_calls w a choice.tool_calls (messages ++ assistant choice ∷ [])
      (emit (runtime_event "sessions_yield" "pending") run))

abbrev pub with_calls :
    World
    → Agent
    → (List ChatMessage → Run → Run)
    → Choice
    → List ChatMessage
    → Run
    → List ToolCall
    → Run
with_calls w a next choice messages run [] =
    emit (done_chunk choice.content) (emit (runtime_event "task_completion" "completed") run)
with_calls w a next choice messages run (tc ∷ calls) =
    after_validation w a next choice messages run (validate_all w a choice.tool_calls)

abbrev pub scanned :
    World
    → Agent
    → (List ChatMessage → Run → Run)
    → Choice
    → List ChatMessage
    → Run
    → Option String
    → Run
scanned w a next choice messages run (some token) = halt token run
scanned w a next choice messages run none =
    with_calls w a next choice messages run choice.tool_calls

-- One round, on what the model's server gave.
abbrev pub on_reply :
    World
    → Agent
    → (List ChatMessage → Run → Run)
    → List ChatMessage
    → Run
    → Result OpenClawError Choice
    → Run
on_reply w a next messages run (err e) = emit (error "openclaw_error") (emit_run_failed run)
on_reply w a next messages run (ok choice) =
    scanned w a next choice messages run (check_canary a choice.content)

unfoldable pub iterate : World → Agent → ℕ → List ChatMessage → Run → Run
iterate w a zero messages run = emit (error "max_iterations") (emit_run_failed run)
iterate w a (suc n) messages run =
    on_reply w a (iterate w a n) messages (record run { asked = suc run.asked })
      (call_open_claw w run.asked messages)

abbrev pub max_tool_iterations : ℕ
max_tool_iterations = 10

abbrev pub start : World → Agent → Run → Option (List ChatMessage) → Run
start w a run none = emit (error "invalid_message") run
start w a run (some messages) =
    iterate w a max_tool_iterations messages (emit (runtime_event "run.started" "pending") run)

abbrev pub with_prompt : World → Agent → Run → Option Prompt → Run
with_prompt w a run none = emit (error "invalid_message") run
with_prompt w a run (some prompt) = start w a run (initial_messages prompt)

-- `forwardToOpenClaw`, on what encoding/json makes of the payload.
unfoldable pub forward_to_open_claw :
    World → Agent → Result UrlError (Unit {0}) → Option Prompt → Run → Run
forward_to_open_claw w a (err e) prompt run = emit (error "invalid_config") run
forward_to_open_claw w a (ok _) prompt run = with_prompt w a run prompt

pub record ResumePayload : Type 0 where
  pub connector_id : String
  pub tool_name : String
  pub arguments : String

abbrev pub after_resume : ResumePayload → AgentConnector → Run → Result McpError String → Run
after_resume payload connector run (err e) =
    emit (tool_failed payload.tool_name connector.name)
      (emit (runtime_event "connector.resume_failed" "failed") run)
after_resume payload connector run (ok result) =
    emit (tool_executed payload.tool_name connector.name)
      (emit (runtime_event "connector.resume_completed" "completed") run)

abbrev pub resume_on : World → ResumePayload → Run → Option AgentConnector → Run
resume_on w payload run none =
    emit (tool_failed payload.tool_name "")
      (emit (runtime_event "connector.resume_failed" "failed") run)
resume_on w payload run (some connector) =
    let call : Call = record {
      connector = connector;
      tool_name = payload.tool_name;
      arguments = payload.arguments;
    } in
    after_resume payload connector (record run { calls = run.calls ++ call ∷ [] })
      (call_tool w.mcp (length run.calls) connector payload.tool_name payload.arguments)

-- `handleConnectorActionResume`
unfoldable pub handle_connector_action_resume : World → Agent → Option ResumePayload → Run → Run
handle_connector_action_resume w a none run = emit (error "invalid_resume_payload") run
handle_connector_action_resume w a (some payload) run =
    resume_on w payload run
      (resolve_connector_for_action a.connectors payload.connector_id payload.tool_name)

-- `handleConfigUpdate`: what the payload holds replaces what the agent has.
unfoldable pub handle_config_update : Agent → Option Agent → Run → Agent × Run
handle_config_update a none run = (a, emit (error "invalid_payload") run)
handle_config_update a (some new) run = (new, emit config_ack run)
