-- ===== src/Chat/Block.antt =====
-- src/core_types/tool_call_types.hpp: the cards that tool calls are shown as. `int` is an integer,
-- `uintmax_t` a number; the field that two structs call `type` is `kind` here.
use Prim.Native.String.{String}
use yac.Common.{ℕ, Bool, List}
use yac.Common.Int.{ℤ}

pub data DiffLineType : Type 0 where
  add remove context : DiffLineType

pub record DiffLine : Type 0 where
  pub kind : DiffLineType
  pub content : String

pub record GrepMatch : Type 0 where
  pub filepath : String
  pub line : ℤ
  pub content : String

pub record SearchResult : Type 0 where
  pub title : String
  pub url : String
  pub snippet : String

pub data DirectoryEntryType : Type 0 where
  file directory other : DirectoryEntryType

pub record DirectoryEntry : Type 0 where
  pub name : String
  pub kind : DirectoryEntryType
  pub size : ℕ

pub data DiagnosticSeverity : Type 0 where
  error warning information hint : DiagnosticSeverity

pub record LspDiagnostic : Type 0 where
  pub severity : DiagnosticSeverity
  pub message : String
  pub line : ℤ

pub record LspLocation : Type 0 where
  pub filepath : String
  pub line : ℤ
  pub character : ℤ

pub record LspSymbol : Type 0 where
  pub name : String
  pub kind : String
  pub line : ℤ

pub record LspTextEdit : Type 0 where
  pub filepath : String
  pub start_line : ℤ
  pub start_character : ℤ
  pub end_line : ℤ
  pub end_character : ℤ
  pub new_text : String

pub record BashCall : Type 0 where
  pub command : String
  pub output : String
  pub exit_code : ℤ
  pub is_error : Bool

pub record FileEditCall : Type 0 where
  pub filepath : String
  pub diff : List DiffLine
  pub is_error : Bool
  pub error : String

pub record FileReadCall : Type 0 where
  pub filepath : String
  pub lines_loaded : ℤ

pub record FileWriteCall : Type 0 where
  pub filepath : String
  pub content_preview : String
  pub content_tail : String
  pub lines_added : ℤ
  pub lines_removed : ℤ
  pub is_error : Bool
  pub is_streaming : Bool
  pub error : String

pub record ListDirCall : Type 0 where
  pub path : String
  pub entries : List DirectoryEntry
  pub truncated : Bool
  pub is_error : Bool
  pub error : String

pub record GrepCall : Type 0 where
  pub pattern : String
  pub match_count : ℤ
  pub matches : List GrepMatch
  pub is_error : Bool
  pub error : String

pub record GlobCall : Type 0 where
  pub pattern : String
  pub matched_files : List String
  pub is_error : Bool
  pub error : String

pub record WebFetchCall : Type 0 where
  pub url : String
  pub title : String
  pub excerpt : String
  pub format : String
  pub timeout : ℤ

pub record WebSearchCall : Type 0 where
  pub query : String
  pub results : List SearchResult
  pub num_results : ℤ
  pub context_max_characters : ℤ

pub record LspDiagnosticsCall : Type 0 where
  pub file_path : String
  pub diagnostics : List LspDiagnostic
  pub is_error : Bool
  pub error : String

pub record LspReferencesCall : Type 0 where
  pub symbol : String
  pub file_path : String
  pub references : List LspLocation
  pub is_error : Bool
  pub error : String

pub record LspGotoDefinitionCall : Type 0 where
  pub symbol : String
  pub file_path : String
  pub line : ℤ
  pub character : ℤ
  pub definitions : List LspLocation
  pub is_error : Bool
  pub error : String

pub record LspRenameCall : Type 0 where
  pub file_path : String
  pub line : ℤ
  pub character : ℤ
  pub old_name : String
  pub new_name : String
  pub changes_count : ℤ
  pub changes : List LspTextEdit
  pub is_error : Bool
  pub error : String

pub record LspSymbolsCall : Type 0 where
  pub file_path : String
  pub symbols : List LspSymbol
  pub is_error : Bool
  pub error : String

pub data SubAgentMode : Type 0 where
  foreground background : SubAgentMode

pub data SubAgentStatus : Type 0 where
  pending running complete error cancelled timeout : SubAgentStatus

pub record SubAgentCall : Type 0 where
  pub task : String
  pub mode : SubAgentMode
  pub status : SubAgentStatus
  pub agent_id : String
  pub result : String
  pub result_summary : String
  pub tool_count : ℤ
  pub elapsed_ms : ℤ

pub record TodoItem : Type 0 where
  pub content : String
  pub status : String
  pub priority : String

pub record TodoWriteCall : Type 0 where
  pub todos : List TodoItem
  pub is_error : Bool
  pub error : String

pub record AskUserCall : Type 0 where
  pub question : String
  pub options : List String
  pub response : String
  pub is_error : Bool
  pub error : String

pub record PlanExitCall : Type 0 where
  pub plan : String
  pub plan_path : String
  pub approved : Bool
  pub is_error : Bool
  pub error : String

pub data McpResultBlockKind : Type 0 where
  text image audio resource_link embedded_resource : McpResultBlockKind

pub record McpResultBlock : Type 0 where
  pub kind : McpResultBlockKind
  pub text : String
  pub mime_type : String
  pub uri : String
  pub name : String
  pub bytes : ℕ

pub record McpToolCall : Type 0 where
  pub server_id : String
  pub tool_name : String
  pub original_tool_name : String
  pub arguments_json : String
  pub result_blocks : List McpResultBlock
  pub is_error : Bool
  pub error : String
  pub is_truncated : Bool
  pub result_bytes : ℕ
  pub server_requires_approval : Bool
  pub approval_required_tools : List String

pub data ToolCallBlock : Type 0 where
  bash : BashCall → ToolCallBlock
  file_edit : FileEditCall → ToolCallBlock
  file_read : FileReadCall → ToolCallBlock
  file_write : FileWriteCall → ToolCallBlock
  list_dir : ListDirCall → ToolCallBlock
  grep : GrepCall → ToolCallBlock
  glob : GlobCall → ToolCallBlock
  web_fetch : WebFetchCall → ToolCallBlock
  web_search : WebSearchCall → ToolCallBlock
  lsp_diagnostics : LspDiagnosticsCall → ToolCallBlock
  lsp_references : LspReferencesCall → ToolCallBlock
  lsp_goto_definition : LspGotoDefinitionCall → ToolCallBlock
  lsp_rename : LspRenameCall → ToolCallBlock
  lsp_symbols : LspSymbolsCall → ToolCallBlock
  sub_agent : SubAgentCall → ToolCallBlock
  todo_write : TodoWriteCall → ToolCallBlock
  ask_user : AskUserCall → ToolCallBlock
  plan_exit : PlanExitCall → ToolCallBlock
  mcp_tool : McpToolCall → ToolCallBlock

pub record ToolExecutionResult : Type 0 where
  pub block : ToolCallBlock
  pub result_json : String
  pub is_error : Bool
