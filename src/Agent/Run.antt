-- ===== src/Agent/Run.antt =====
-- cmd/heimdall-agent/openclaw.go: a message to the agent and the loop of model replies and tool calls that
-- answers it. The HTTP client, the tool servers and JSON are parameters; a frame is kept by its type and
-- what the control plane acts on, without its titles and texts. The configuration does not change in a run.
use heimdall.Base.{
  ℕ, String, Bool, true, false, ◌||◌, Option, none, some, List, [], ◌∷◌, ◌++◌, ◌==◌, eqb,
  if◌then◌else◌, length,
}
use heimdall.Base.Map.{get}
use heimdall.Base.Result.{Result, ok, err}
use heimdall.Agent.Mcp.{McpServer, McpError, call_tool}
use heimdall.Agent.{
  Agent, AgentConnector, GovernedTool, Refusal, validate_tool_call, check_canary, resolve_connector,
}

pub record ToolCall : Type 0 where
  pub id : String
  pub call_type : String
  pub name : String
  pub arguments : String

pub record Choice : Type 0 where
  pub content : String
  pub tool_calls : List ToolCall

-- The messages of a conversation: a plain one, the model's with its tool calls, the outcome of a call.
pub data ChatMessage : Type 0 where
  plain : String → String → ChatMessage
  assistant : Choice → ChatMessage
  tool_result tool_unresolved : String → String → ChatMessage
  tool_error : String → McpError → ChatMessage

pub data AgentFrame : Type 0 where
  runtime_event : String → String → AgentFrame
  error session_halt done_chunk : String → AgentFrame
  tool_blocked approval_required : String → AgentFrame
  tool_executed tool_failed : String → String → AgentFrame
  config_ack : AgentFrame

-- `post` is the answer of the model's server to a numbered request, `mcp` the tool servers, `choices` what is in a response, `params` the names in a JSON object.
pub record World : Type 0 where
  pub post : ℕ → List ChatMessage → Result String (ℕ × String)
  pub choices : String → Result String (List Choice)
  pub mcp : McpServer
  pub params : String → Option (List String)

pub record Call : Type 0 where
  pub connector : AgentConnector
  pub tool_name : String
  pub arguments : String

-- What a run has done: the frames handed to the connection and those of them that went out, the calls to
-- tool servers, and the requests to the model. `takes` says whether `conn.Send` of a frame succeeds, after the
-- frames that were handed to it before: it fails on a frame that is too large or where the network fails.
pub record Run : Type 0 where
  pub takes : List AgentFrame → AgentFrame → Bool
  pub handed : List AgentFrame
  pub sent : List AgentFrame
  pub calls : List Call
  pub asked : ℕ

abbrev pub fresh : (List AgentFrame → AgentFrame → Bool) → Run
fresh takes = record { takes = takes; handed = []; sent = []; calls = []; asked = 0 }

abbrev pub taken : Bool → AgentFrame → List AgentFrame
taken true f = f ∷ []
taken false f = []

-- `conn.Send`, whose error is logged or dropped wherever a run sends a frame.
abbrev pub emit : AgentFrame → Run → Run
emit f run = record run {
  handed = run.handed ++ f ∷ [];
  sent = run.sent ++ taken (run.takes run.handed f) f;
}

abbrev pub emit_run_failed : Run → Run
emit_run_failed run = emit (runtime_event "run.failed" "failed") run

abbrev pub halt : String → Run → Run
halt token run = emit (session_halt token) (emit_run_failed run)

pub data OpenClawError : Type 0 where
  request_failed unparsed : String → OpenClawError
  bad_status : ℕ → OpenClawError
  no_choices : OpenClawError

abbrev pub first_choice : Result String (List Choice) → Result OpenClawError Choice
first_choice (err e) = err (unparsed e)
first_choice (ok []) = err no_choices
first_choice (ok (choice ∷ choices)) = ok choice

abbrev pub read_response : World → Result String (ℕ × String) → Result OpenClawError Choice
read_response w (err e) = err (request_failed e)
read_response w (ok (status, body)) =
    if eqb status 200 then first_choice (w.choices body) else err (bad_status status)

-- `callOpenClaw`, with the first choice of the response.
unfoldable pub call_open_claw : World → ℕ → List ChatMessage → Result OpenClawError Choice
call_open_claw w n messages = read_response w (w.post n messages)

-- A run that has ended, or one that goes on with the conversation.
pub data Progress : Type 0 where
  ended : Run → Progress
  going : List ChatMessage → Run → Progress

abbrev pub refuse :
    String → Result Refusal (Unit {0}) → Result String (Unit {0}) → Result String (Unit {0})
refuse name (err e) rest = err name
refuse name (ok _) rest = rest

-- The first call that is refused is reported, and none is made.
unfoldable pub validate_all : World → Agent → List ToolCall → Result String (Unit {0})
validate_all w a [] = ok tt
validate_all w a (tc ∷ calls) =
    refuse tc.name (validate_tool_call w.params a tc.name tc.arguments) (validate_all w a calls)

abbrev pub after_scan :
    ToolCall → AgentConnector → String → List ChatMessage → Run → Option String → Progress
after_scan tc connector result messages run (some token) = ended (halt token run)
after_scan tc connector result messages run none =
    going (messages ++ tool_result tc.id result ∷ [])
      (emit (tool_executed tc.name connector.name) run)

abbrev pub after_call :
    Agent → ToolCall → AgentConnector → List ChatMessage → Run → Result McpError String → Progress
after_call a tc connector messages run (err e) =
    going (messages ++ tool_error tc.id e ∷ []) (emit (tool_failed tc.name connector.name) run)
after_call a tc connector messages run (ok result) =
    after_scan tc connector result messages run (check_canary a result)

-- The call goes out to the tool server.
unfoldable pub make_call :
    World → Agent → ToolCall → AgentConnector → List ChatMessage → Run → Progress
make_call w a tc connector messages run =
    let call : Call = record {
      connector = connector;
      tool_name = tc.name;
      arguments = tc.arguments;
    } in
    after_call a tc connector messages (record run { calls = run.calls ++ call ∷ [] })
      (call_tool w.mcp (length run.calls) connector tc.name tc.arguments)

abbrev pub stop_governed : ToolCall → String → Run → Run
stop_governed tc decision run =
    if decision == "block"
    then emit (tool_blocked tc.name) (emit (runtime_event "connector.blocked" "blocked") run)
    else emit (approval_required tc.name)
        (emit (runtime_event "connector.awaiting_approval" "approval_required") run)

-- Whether the `switch` on the decision has a case for it.
abbrev pub holds_back : Option GovernedTool → Bool
holds_back none = false
holds_back (some g) = g.decision == "block" || g.decision == "require_approval"

abbrev pub decision_of : Option GovernedTool → String
decision_of none = ""
decision_of (some g) = g.decision

unfoldable pub govern :
    World → Agent → ToolCall → AgentConnector → List ChatMessage → Run → Progress
govern w a tc connector messages run =
    let governance = get tc.name connector.governed_tools in
    if holds_back governance
    then ended (stop_governed tc (decision_of governance) run)
    else make_call w a tc connector messages run

abbrev pub with_connector :
    World → Agent → ToolCall → List ChatMessage → Run → Option AgentConnector → Progress
with_connector w a tc messages run none =
    going (messages ++ tool_unresolved tc.id tc.name ∷ []) (emit (tool_failed tc.name "") run)
with_connector w a tc messages run (some connector) = govern w a tc connector messages run

unfoldable pub execute_call : World → Agent → ToolCall → List ChatMessage → Run → Progress
execute_call w a tc messages run =
    with_connector w a tc messages run (resolve_connector a.connectors tc.name)

abbrev pub and_then : Progress → (List ChatMessage → Run → Progress) → Progress
and_then (ended run) f = ended run
and_then (going messages run) f = f messages run

unfoldable pub execute_calls : World → Agent → List ToolCall → List ChatMessage → Run → Progress
execute_calls w a [] messages run = going messages run
execute_calls w a (tc ∷ calls) messages run =
    and_then (execute_call w a tc messages run) (execute_calls w a calls)
