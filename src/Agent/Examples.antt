-- ===== src/Agent/Examples.antt =====
-- cmd/heimdall-agent: a model that calls a tool and then answers.
use heimdall.Base.{
  ℕ, zero, suc, ◌≡◌, refl, String, Bool, true, false, none, some, List, [], ◌∷◌, ◌==◌, All,
  if◌then◌else◌,
}
use heimdall.Base.Result.{Result, ok}
use heimdall.Base.Text.{trim_space}
use heimdall.Agent.{
  Agent, AgentConnector, check_params, validate_tool_call, has_substring, first_token, check_canary,
  resolve_connector,
}
use heimdall.Agent.Mcp.{McpServer, call_tool, text_of}
use heimdall.Agent.Run.{
  AgentFrame, Choice, ToolCall, World, fresh, call_open_claw, validate_all, make_call, govern,
  execute_call, execute_calls, runtime_event, done_chunk, tool_executed,
}
use heimdall.Agent.Loop.{Prompt, keep_messages, initial_messages, iterate, forward_to_open_claw}
use heimdall.Agent.Permitted.{IsPermitted}
use heimdall.Agent.Respects.{Spoken}
use heimdall.Agent.Safety.{
  AnsweredOnce, forward_to_open_claw-IsPermitted, forward_to_open_claw-Spoken,
  forward_to_open_claw-AnsweredOnce,
}

abbrev search_call : ToolCall
search_call = record { id = "1"; call_type = "function"; name = "search"; arguments = "{\"q\":1}" }

abbrev pay_call : ToolCall
pay_call = record { id = "2"; call_type = "function"; name = "pay"; arguments = "{}" }

abbrev choices_of : String → Result String (List Choice)
choices_of body =
    if body == "call"
    then ok (record { content = ""; tool_calls = search_call ∷ [] } ∷ [])
    else if body == "pay"
    then ok (record { content = ""; tool_calls = pay_call ∷ search_call ∷ [] } ∷ [])
    else ok (record { content = "42"; tool_calls = [] } ∷ [])

abbrev body_of : ℕ → String
body_of zero = "call"
body_of (suc zero) = "done"
body_of n = "pay"

abbrev server : McpServer
server = record {
  scheme = λ address. some "http";
  is_json = λ text. true;
  api_key = λ auth. none;
  answer = λ n request. ok (200, "");
  response = λ body. some record {
    rpc_error = none;
    rpc_result = some (record { block_type = "text"; text = "found" } ∷ []);
  };
}

abbrev world : World
world = record {
  post = λ n messages. ok (200, body_of n);
  choices = choices_of;
  mcp = server;
  params = λ arguments. some ("q" ∷ []);
}

abbrev web : AgentConnector
web = record {
  id = "c";
  name = "web";
  connector_type = "mcp";
  endpoint = "http://web";
  auth = "";
  tools = "search" ∷ "pay" ∷ [];
  governed_tools =
      (
        "pay",
        record {
          action_type = "write";
          risk_class = "payment";
          decision = "require_approval";
          target_type = "";
          target_label_template = "";
          approval_summary_template = "";
        },
      )
      ∷ [];
}

abbrev agent : Agent
agent = record {
  config = "";
  tool_allowlist = "search" ∷ "pay" ∷ [];
  tool_policies = some (("search", record { allowed_params = "q" ∷ []; denied_params = [] }) ∷ []);
  canary_tokens = "SECRET" ∷ [];
  connectors = web ∷ [];
}

abbrev prompt : Prompt
prompt = record { role = "user"; content = "hello"; messages = [] }

-- The connection takes every frame but a chunk, which is too large for it.
abbrev takes : List AgentFrame → AgentFrame → Bool
takes before (done_chunk content) = false
takes before f = true

-- The tool is called once, and its answer goes into the second request.
searches :
    (forward_to_open_claw world agent (ok tt) (some prompt) (fresh takes)).calls
    ≡ record { connector = web; tool_name = "search"; arguments = "{\"q\":1}" } ∷ []
unfolding forward_to_open_claw initial_messages keep_messages trim_space iterate call_open_claw
    check_canary first_token has_substring validate_all validate_tool_call check_params
    execute_calls execute_call govern make_call resolve_connector call_tool text_of
searches = refl

answers :
    (forward_to_open_claw world agent (ok tt) (some prompt) (fresh takes)).handed
    ≡ runtime_event "run.started" "pending"
      ∷ runtime_event "sessions_yield" "pending"
      ∷ tool_executed "search" "web"
      ∷ runtime_event "task_completion" "completed"
      ∷ done_chunk "42"
      ∷ []
unfolding forward_to_open_claw initial_messages keep_messages trim_space iterate call_open_claw
    check_canary first_token has_substring validate_all validate_tool_call check_params
    execute_calls execute_call govern make_call resolve_connector call_tool text_of
answers = refl

forward_to_open_claw-IsPermitted_example :
    All
      (IsPermitted world agent)
      (forward_to_open_claw world agent (ok tt) (some prompt) (fresh takes)).calls
forward_to_open_claw-IsPermitted_example =
    forward_to_open_claw-IsPermitted world agent takes (ok tt) (some prompt)

forward_to_open_claw-Spoken_example :
    All (Spoken agent) (forward_to_open_claw world agent (ok tt) (some prompt) (fresh takes)).sent
forward_to_open_claw-Spoken_example =
    forward_to_open_claw-Spoken world agent takes (ok tt) (some prompt)

forward_to_open_claw-AnsweredOnce_example :
    AnsweredOnce (forward_to_open_claw world agent (ok tt) (some prompt) (fresh takes))
forward_to_open_claw-AnsweredOnce_example =
    forward_to_open_claw-AnsweredOnce world agent takes (ok tt) (some prompt)
