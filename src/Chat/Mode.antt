-- ===== src/Chat/Mode.antt =====
-- src/chat/agent_mode.cpp and src/core_types/agent_mode.hpp: which tools a mode may call; and the
-- tool filter of src/chat/chat_history_store.cpp.
pub mod Offer
use Prim.Native.String.{String}
use text.Mathlib.Text.{◌==◌, starts_with}
use yac.Common.{Bool, true, false, ◌||◌, not, List, [], ◌∷◌, if◌then◌else◌}
use yac.Chat.Message.{ToolDefinition}

pub data AgentMode : Type 0 where
  build plan : AgentMode

unfoldable pub contains : List String → String → Bool
contains [] name = false
contains (x ∷ xs) name = if x == name then true else contains xs name

abbrev plan_tools : List String
plan_tools =
    "file_read" ∷ "list_dir" ∷ "glob" ∷ "grep" ∷ "lsp_diagnostics" ∷ "lsp_references"
    ∷ "lsp_goto_definition" ∷ "lsp_symbols" ∷ "sub_agent" ∷ "ask_user" ∷ "todo_write" ∷ "plan_exit"
    ∷ []

pub is_plan_mode_allowed_tool : String → Bool
is_plan_mode_allowed_tool name = if starts_with name "mcp_" then false else contains plan_tools name

pub excluded_tools_for_mode : AgentMode → List String
excluded_tools_for_mode AgentMode.build = []
excluded_tools_for_mode AgentMode.plan = "bash" ∷ "lsp_rename" ∷ "file_write" ∷ "file_edit" ∷ []

unfoldable pub is_tool_allowed_for_mode : AgentMode → String → Bool
unfolding is_plan_mode_allowed_tool
is_tool_allowed_for_mode AgentMode.build name = not (name == "plan_exit")
is_tool_allowed_for_mode AgentMode.plan name = is_plan_mode_allowed_tool name

-- `ChatHistoryStore::FilterToolsForAgentMode`, with `std::erase_if` written out.
pub filter_tools_for_agent_mode :
    List ToolDefinition → List String → List String → AgentMode → List ToolDefinition
filter_tools_for_agent_mode [] static_excluded mode_excluded mode = []
filter_tools_for_agent_mode (d ∷ ds) static_excluded mode_excluded mode =
    let rest = filter_tools_for_agent_mode ds static_excluded mode_excluded mode in
    if contains static_excluded d.name
      || contains mode_excluded d.name
      || not (is_tool_allowed_for_mode mode d.name)
    then rest
    else d ∷ rest
