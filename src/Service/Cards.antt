-- ===== src/Service/Cards.antt =====
-- The cards of tool calls that fail or cannot be prepared: the helpers at the top of
-- src/chat/tool_round_runner.cpp. `partial_field` is `PartialField`, which reads a field of JSON
-- text that may be cut off.
use Prim.Native.String.{String}
use text.Mathlib.Text.{◌==◌}
use yac.Common.{true, false, none, some, [], if◌then◌else◌}
use yac.Common.Int.{pos}
use yac.Chat.Message.{ToolCallRequest}
use yac.Chat.Block.{ToolCallBlock, ToolExecutionResult, SubAgentMode, SubAgentStatus}
use yac.Mcp.Naming.{split_mcp_tool_name}
use yac.Service.State.{Env, PreparedToolCall}

-- The visit in `MakeErrorToolResult`: a card with both fields gets both, a card with `is_error`
-- alone gets that, any other stays.
unfoldable pub with_error : String → ToolCallBlock → ToolCallBlock
with_error m (ToolCallBlock.bash c) = ToolCallBlock.bash (record c { is_error = true })
with_error m (ToolCallBlock.file_edit c) =
    ToolCallBlock.file_edit (record c { is_error = true; error = m })
with_error m (ToolCallBlock.file_read c) = ToolCallBlock.file_read c
with_error m (ToolCallBlock.file_write c) =
    ToolCallBlock.file_write (record c { is_error = true; error = m })
with_error m (ToolCallBlock.list_dir c) =
    ToolCallBlock.list_dir (record c { is_error = true; error = m })
with_error m (ToolCallBlock.grep c) = ToolCallBlock.grep (record c { is_error = true; error = m })
with_error m (ToolCallBlock.glob c) = ToolCallBlock.glob (record c { is_error = true; error = m })
with_error m (ToolCallBlock.web_fetch c) = ToolCallBlock.web_fetch c
with_error m (ToolCallBlock.web_search c) = ToolCallBlock.web_search c
with_error m (ToolCallBlock.lsp_diagnostics c) =
    ToolCallBlock.lsp_diagnostics (record c { is_error = true; error = m })
with_error m (ToolCallBlock.lsp_references c) =
    ToolCallBlock.lsp_references (record c { is_error = true; error = m })
with_error m (ToolCallBlock.lsp_goto_definition c) =
    ToolCallBlock.lsp_goto_definition (record c { is_error = true; error = m })
with_error m (ToolCallBlock.lsp_rename c) =
    ToolCallBlock.lsp_rename (record c { is_error = true; error = m })
with_error m (ToolCallBlock.lsp_symbols c) =
    ToolCallBlock.lsp_symbols (record c { is_error = true; error = m })
with_error m (ToolCallBlock.sub_agent c) = ToolCallBlock.sub_agent c
with_error m (ToolCallBlock.todo_write c) =
    ToolCallBlock.todo_write (record c { is_error = true; error = m })
with_error m (ToolCallBlock.ask_user c) =
    ToolCallBlock.ask_user (record c { is_error = true; error = m })
with_error m (ToolCallBlock.plan_exit c) =
    ToolCallBlock.plan_exit (record c { is_error = true; error = m })
with_error m (ToolCallBlock.mcp_tool c) =
    ToolCallBlock.mcp_tool (record c { is_error = true; error = m })

-- The visit in `MakeRejectedToolResult`: only a card with both fields changes.
unfoldable pub with_rejection : ToolCallBlock → ToolCallBlock
unfolding with_error
with_rejection (ToolCallBlock.bash c) = ToolCallBlock.bash c
with_rejection block = with_error "User rejected tool execution." block

unfoldable pub make_error_tool_result : Env → ToolCallBlock → String → ToolExecutionResult
make_error_tool_result env block message = record {
  block = with_error message block;
  result_json = env.error_json message;
  is_error = true;
}

unfoldable pub make_rejected_tool_result : PreparedToolCall → ToolExecutionResult
make_rejected_tool_result p = record {
  block = with_rejection p.preview;
  result_json = "{\"error\":\"User rejected tool execution.\"}";
  is_error = true;
}

-- `MakeBuiltinFallbackBlock`, with the default values of the other fields written out.
unfoldable pub make_builtin_fallback_block :
    (String → String → String) → ToolCallRequest → ToolCallBlock
make_builtin_fallback_block partial_field request =
    let name = request.name in
    let field = partial_field request.arguments_json in
    if name == "file_edit"
    then ToolCallBlock.file_edit
        (record { filepath = field "filepath"; diff = []; is_error = false; error = "" })
    else if name == "file_read"
    then ToolCallBlock.file_read (record { filepath = field "filepath"; lines_loaded = pos 0 })
    else if name == "file_write"
    then ToolCallBlock.file_write (record {
      filepath = field "filepath";
      content_preview = "";
      content_tail = "";
      lines_added = pos 0;
      lines_removed = pos 0;
      is_error = false;
      is_streaming = false;
      error = "";
    })
    else if name == "list_dir"
    then ToolCallBlock.list_dir (record {
      path = field "path";
      entries = [];
      truncated = false;
      is_error = false;
      error = "";
    })
    else if name == "grep"
    then ToolCallBlock.grep (record {
      pattern = field "pattern";
      match_count = pos 0;
      matches = [];
      is_error = false;
      error = "";
    })
    else if name == "glob"
    then ToolCallBlock.glob
        (record { pattern = field "pattern"; matched_files = []; is_error = false; error = "" })
    else if name == "lsp_diagnostics"
    then ToolCallBlock.lsp_diagnostics
        (record { file_path = field "file_path"; diagnostics = []; is_error = false; error = "" })
    else if name == "lsp_references"
    then ToolCallBlock.lsp_references (record {
      symbol = "";
      file_path = field "file_path";
      references = [];
      is_error = false;
      error = "";
    })
    else if name == "lsp_goto_definition"
    then ToolCallBlock.lsp_goto_definition (record {
      symbol = "";
      file_path = field "file_path";
      line = pos 1;
      character = pos 1;
      definitions = [];
      is_error = false;
      error = "";
    })
    else if name == "lsp_rename"
    then ToolCallBlock.lsp_rename (record {
      file_path = field "file_path";
      line = pos 1;
      character = pos 1;
      old_name = "";
      new_name = field "new_name";
      changes_count = pos 0;
      changes = [];
      is_error = false;
      error = "";
    })
    else if name == "lsp_symbols"
    then ToolCallBlock.lsp_symbols
        (record { file_path = field "file_path"; symbols = []; is_error = false; error = "" })
    else if name == "sub_agent"
    then ToolCallBlock.sub_agent (record {
      task = field "task";
      mode = SubAgentMode.foreground;
      status = SubAgentStatus.pending;
      agent_id = "";
      result = "";
      result_summary = "";
      tool_count = pos 0;
      elapsed_ms = pos 0;
    })
    else if name == "todo_write"
    then ToolCallBlock.todo_write (record { todos = []; is_error = false; error = "" })
    else if name == "ask_user"
    then ToolCallBlock.ask_user (record {
      question = field "question";
      options = [];
      response = "";
      is_error = false;
      error = "";
    })
    else if name == "plan_exit"
    then ToolCallBlock.plan_exit (record {
      plan = field "plan";
      plan_path = "";
      approved = false;
      is_error = false;
      error = "";
    })
    else if name == "bash"
    then ToolCallBlock.bash
        (record { command = field "command"; output = ""; exit_code = pos 0; is_error = true })
    else ToolCallBlock.bash
        (record { command = name; output = ""; exit_code = pos 0; is_error = true })

unfoldable pub fallback_preview : (String → String → String) → ToolCallRequest → ToolCallBlock
fallback_preview partial_field request = elim (split_mcp_tool_name request.name) [
  | none ↦ make_builtin_fallback_block partial_field request
  | some (server, tool) ↦ ToolCallBlock.mcp_tool (record {
    server_id = server;
    tool_name = request.name;
    original_tool_name = tool;
    arguments_json = request.arguments_json;
    result_blocks = [];
    is_error = false;
    error = "";
    is_truncated = false;
    result_bytes = 0;
    server_requires_approval = false;
    approval_required_tools = [];
  })
]

-- `MakeFallbackPreparedToolCall`.
unfoldable pub make_fallback_prepared_tool_call : Env → ToolCallRequest → PreparedToolCall
make_fallback_prepared_tool_call env request = record {
  request = request;
  preview = fallback_preview env.partial_field request;
  requires_approval = false;
  approval_prompt = "";
  approval_id = "";
  card_message_id = 0;
}
