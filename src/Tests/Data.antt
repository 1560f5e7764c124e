-- ===== src/Tests/Data.antt =====
-- A service, an environment and a schedule to run the model on.
use Prim.Native.String.{String}
use yac.Common.{ℕ, Bool, true, false, none, some, List, [], ◌∷◌, if◌then◌else◌, ◌==◌}
use yac.Chat.Message.{ChatMessage, ChatRole, ChatMessageStatus, ToolCallRequest, plain}
use yac.Chat.Mode.{AgentMode}
use yac.Chat.Block.{ToolCallBlock, ToolExecutionResult}
use yac.Chat.Config.{ChatConfig}
use yac.Common.Int.{ℤ}
use yac.Approvals.{Approvals}
use yac.Service.State.{Service, Env, PreparedToolCall, prepared, returned}
use yac.Service.Calls.{Call}

abbrev pub config : ChatConfig
config = record {
  provider_id = "openai";
  profile_id = none;
  model = "gpt";
  temperature = 700;
  workspace_root = "/work";
  system_prompt = none;
  agent_mode = AgentMode.build;
  has_entered_plan_mode = false;
  active_plan_path = none;
  build_switch_plan_path = none;
  chat_session_id = some "session";
  auto_compact_enabled = true;
  auto_compact_threshold = 800;
  auto_compact_keep_last = 1;
  auto_compact_mode = "summarize";
  model_settings = record { provider_id = "openai"; model = "gpt"; effort = none } ∷ [];
}

abbrev pub note : ℕ → String → ChatMessage
note i t = plain i ChatRole.system ChatMessageStatus.complete t

abbrev pub said : ℕ → String → ChatMessage
said i t = plain i ChatRole.user ChatMessageStatus.complete t

abbrev pub history : List ChatMessage
history = note 1 "rules" ∷ said 2 "a" ∷ note 3 "more" ∷ said 4 "b" ∷ said 5 "c" ∷ []

abbrev pub approvals : Approvals
approvals = record { pending = []; next_approval_id = 7 }

-- A service whose worker is busy.
abbrev pub busy : Service
busy = record {
  config = config;
  history = history;
  pending = [];
  last_usage = none;
  generation = 3;
  next_id = 10;
  active = true;
  active_stop = some false;
  approvals = approvals;
  todos = [];
  app_state = some (("theme", "dark") ∷ []);
  sessions_made = 1;
  log = [];
  executed = [];
  resolutions = [];
  clock = 0;
}

abbrev pub request : String → String → ToolCallRequest
request i name = record { id = i; name = name; arguments_json = "{}" }

-- The user approves the first tool at the fourth moment.
abbrev pub others : ℕ → List Call
others n = if n == 8 then Call.submit "next" ∷ Call.resolve "tool-7" true ∷ [] else []

abbrev pub card : String → ToolCallBlock
card command =
    ToolCallBlock.bash
      (record { command = command; output = ""; exit_code = ℤ.pos 0; is_error = false })

abbrev pub prepared_call : Bool → ToolCallRequest → PreparedToolCall
prepared_call needs r = record {
  request = r;
  preview = card r.arguments_json;
  requires_approval = needs;
  approval_prompt = "Run it?";
  approval_id = "";
  card_message_id = 0;
}

abbrev pub result : PreparedToolCall → ToolExecutionResult
result c = record { block = c.preview; result_json = "{}"; is_error = false }

-- Built-in tools need an approval, MCP tools do not.
abbrev pub env : Env
env = record {
  new_session_id = λ n. "fresh";
  ensure_plan_path = λ root prompt. some "plan.md";
  write_approved_plan = λ path plan. true;
  resolve_provider = λ id. none;
  build_request = λ c h ts. record {
    provider_id = c.provider_id;
    model = c.model;
    responses_instructions = none;
    session_id = none;
    messages = h;
    tools = ts;
    temperature = c.temperature;
    reasoning_effort = none;
    stream = true;
  };
  available_tools = [];
  prepare_built_in = λ r. prepared (prepared_call true r);
  execute_built_in = λ c stop. result c;
  prepare_mcp = λ r. prepared (prepared_call false r);
  execute_mcp = λ c stop. returned (result c);
  partial_field = λ json name. "";
  error_json = λ message. message;
  plan_exit_json = λ path. path;
}

abbrev pub requests : List ToolCallRequest
requests = request "call-1" "bash" ∷ request "call-2" "mcp_web__find" ∷ []
