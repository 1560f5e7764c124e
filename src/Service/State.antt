-- ===== src/Service/State.antt =====
-- The members of class ChatService that change, and the interfaces that its code is given.
use Prim.Native.String.{String}
use yac.Common.{ℕ, suc, Bool, true, false, Option, none, some, List, [], ◌∷◌, ◌++◌, if◌then◌else◌}
use yac.Chat.Message.{ChatMessage, ToolCallRequest, ToolDefinition, TokenUsage}
use yac.Chat.Mode.{AgentMode}
use yac.Chat.Block.{ToolCallBlock, ToolExecutionResult, TodoItem}
use yac.Chat.Event.{ChatEvent}
use yac.Chat.Config.{ChatConfig, ChatRequest}
use yac.Approvals.{Approvals}
use yac.History.Summarize.{Stream}

pub record PendingPrompt : Type 0 where
  pub id : ℕ
  pub content : String

-- struct PreparedToolCall of src/tool_call/executor.hpp.
pub record PreparedToolCall : Type 0 where
  pub request : ToolCallRequest
  pub preview : ToolCallBlock
  pub requires_approval : Bool
  pub approval_prompt : String
  pub approval_id : String
  pub card_message_id : ℕ

-- `active_stop` is `active_stop_source_`: whether there is one, and whether a stop was requested of
-- it. `log` holds the events handed to the callback, oldest first. `executed` and `resolutions` are
-- no members of the class: they record what ran, in which mode, and what the waits for approvals
-- returned. `app_state` is the table behind `config_.state_store`, if there is a store;
-- `sessions_made` counts the session ids drawn, `clock` the steps of the worker.
pub record Service : Type 0 where
  pub config : ChatConfig
  pub history : List ChatMessage
  pub pending : List PendingPrompt
  pub last_usage : Option TokenUsage
  pub generation : ℕ
  pub next_id : ℕ
  pub active : Bool
  pub active_stop : Option Bool
  pub approvals : Approvals
  pub todos : List TodoItem
  pub app_state : Option (List (String × String))
  pub sessions_made : ℕ
  pub log : List ChatEvent
  pub executed : List (PreparedToolCall × AgentMode)
  pub resolutions : List (String × Bool)
  pub clock : ℕ

-- How a tool call is prepared: the call, or the error and the JSON that reports it.
pub data Prepared : Type 0 where
  prepared : PreparedToolCall → Prepared
  refused : String → String → Prepared

-- What a call of an MCP tool comes to: a result, or an exception's message.
pub data Ran : Type 0 where
  returned : ToolExecutionResult → Ran
  threw : String → Ran

-- A provider, and `ResolveContextWindow` for it.
pub record Provider : Type 0 where
  pub complete_stream : ChatRequest → Stream
  pub context_window : String → ℕ

-- What the service is given: the generator of session ids, the plan files, the providers, the
-- request builder, the tools on offer, and the hooks that prepare and run tool calls.
pub record Env : Type 0 where
  pub new_session_id : ℕ → String
  pub ensure_plan_path : String → String → Option String
  pub write_approved_plan : String → String → Bool
  pub resolve_provider : String → Option Provider
  pub build_request : ChatConfig → List ChatMessage → List ToolDefinition → ChatRequest
  pub available_tools : List ToolDefinition
  pub prepare_built_in : ToolCallRequest → Prepared
  pub execute_built_in : PreparedToolCall → Bool → ToolExecutionResult
  pub prepare_mcp : ToolCallRequest → Prepared
  pub execute_mcp : PreparedToolCall → Bool → Ran
  pub partial_field : String → String → String
  pub error_json : String → String
  pub plan_exit_json : String → String

-- `EmitEvent` takes the mutex for the callback: it never returns to a caller that holds it.
unfoldable pub emit_event : Bool → Service → ChatEvent → Option Service
emit_event mutex_held s e = if mutex_held then none else some (record s { log = s.log ++ e ∷ [] })

abbrev pub emit : Service → ChatEvent → Service
emit s e = record s { log = s.log ++ e ∷ [] }

-- `NextMessageId`.
abbrev pub next_message_id : Service → ℕ × Service
next_message_id s = (s.next_id, record s { next_id = suc s.next_id })

abbrev pub stop_requested : Service → Bool
stop_requested s = elim s.active_stop [ none ↦ false | some b ↦ b ]

abbrev pub request_stop : Option Bool → Option Bool
request_stop none = none
request_stop (some b) = some true
