-- ===== src/Agent/Mcp.antt =====
-- cmd/heimdall-agent/mcp.go: a tool call as a JSON-RPC request over HTTP. Parsing of addresses and JSON, and
-- what the server answers, are parameters.
use heimdall.Base.{
  ℕ, String, Bool, ◌||◌, Option, none, some, List, [], ◌∷◌, ◌==◌, eqb, if◌then◌else◌,
}
use heimdall.Base.Result.{Result, ok, err, ◌>>=◌}
use heimdall.Agent.{AgentConnector}

pub record ContentBlock : Type 0 where
  pub block_type : String
  pub text : String

-- A JSON-RPC response: an error with its code and message, a result, or neither.
pub record RpcResponse : Type 0 where
  pub rpc_error : Option (ℕ × String)
  pub rpc_result : Option (List ContentBlock)

-- A request as it goes out; the key is the bearer token, if there is one.
pub record McpRequest : Type 0 where
  pub endpoint : String
  pub tool_name : String
  pub arguments : String
  pub api_key : String

pub data McpError : Type 0 where
  endpoint_invalid arguments_invalid auth_invalid response_unparsed no_result : McpError
  scheme_refused not_answered : String → McpError
  http_status : ℕ → String → McpError
  rpc_failed : ℕ → String → McpError

-- `scheme` is that of a parsed address, `is_json` whether a text is JSON, `api_key` the key in a JSON
-- configuration, `answer` the status and body that the server gives to a numbered request.
pub record McpServer : Type 0 where
  pub scheme : String → Option String
  pub is_json : String → Bool
  pub api_key : String → Option String
  pub answer : ℕ → McpRequest → Result String (ℕ × String)
  pub response : String → Option RpcResponse

abbrev pub check_scheme : Option String → Result McpError (Unit {0})
check_scheme none = err endpoint_invalid
check_scheme (some scheme) =
    if scheme == "http" || scheme == "https" then ok tt else err (scheme_refused scheme)

abbrev pub some_key : Option String → Result McpError String
some_key none = err auth_invalid
some_key (some key) = ok key

-- The key in the configuration of the connector, empty where there is none.
abbrev pub auth_key : McpServer → String → Result McpError String
auth_key server auth = if auth == "" || auth == "{}" then ok "" else some_key (server.api_key auth)

infixr 40 ◌<>◌
abbrev pub ◌<>◌ : String → String → String
String.[] <> t = t
(String.◌∷◌ c s) <> t = String.◌∷◌ c (s <> t)

-- The texts of the content, one after another.
unfoldable pub text_of : List ContentBlock → String
text_of [] = ""
text_of (block ∷ blocks) =
    let rest = text_of blocks in if block.block_type == "text" then block.text <> rest else rest

abbrev pub result_text : Option (ℕ × String) → Option (List ContentBlock) → Result McpError String
result_text (some (code, message)) r = err (rpc_failed code message)
result_text none none = err no_result
result_text none (some blocks) = ok (text_of blocks)

abbrev pub read_rpc : Option RpcResponse → Result McpError String
read_rpc none = err response_unparsed
read_rpc (some r) = result_text r.rpc_error r.rpc_result

abbrev pub read_answer : McpServer → Result String (ℕ × String) → Result McpError String
read_answer server (err e) = err (not_answered e)
read_answer server (ok (status, body)) =
    if eqb status 200 then read_rpc (server.response body) else err (http_status status body)

abbrev pub check_arguments : McpServer → String → Result McpError (Unit {0})
check_arguments server arguments = if server.is_json arguments then ok tt else err arguments_invalid

-- `callTool`, as the numbered request of a run.
unfoldable pub call_tool : McpServer → ℕ → AgentConnector → String → String → Result McpError String
call_tool server n connector tool_name arguments =
    check_scheme (server.scheme connector.endpoint) >>= λ _.
    check_arguments server arguments >>= λ _. auth_key server connector.auth >>= λ key.
    read_answer server (
      server.answer n (record {
        endpoint = connector.endpoint;
        tool_name = tool_name;
        arguments = arguments;
        api_key = key;
      }))
