-- ===== src/Chat/Event.antt =====
-- The events of a conversation: the event structs of src/chat/types.hpp, each a record, and
-- `ChatEvent::Payload`. The two `double` fields of a progress update are left out. Counts are
-- non-negative where the code fills them in.
use Prim.Native.String.{String}
use yac.Common.{ℕ, List, Option}
use yac.Chat.Message.{ChatRole, ChatMessageStatus, ToolCallRequest, TokenUsage}
use yac.Chat.Mode.{AgentMode}
use yac.Chat.Block.{ToolCallBlock}

pub data CompactReason : Type 0 where
  manual auto : CompactReason

pub record StartedEvent : Type 0 where
  pub message_id : ℕ
  pub role : ChatRole
  pub provider_id : String
  pub model : String
  pub status : ChatMessageStatus

pub record TextDeltaEvent : Type 0 where
  pub message_id : ℕ
  pub role : ChatRole
  pub text : String
  pub provider_id : String
  pub model : String

pub record AssistantMessageDoneEvent : Type 0 where
  pub message_id : ℕ
  pub role : ChatRole
  pub provider_id : String
  pub model : String
  pub status : ChatMessageStatus

pub record ToolCallStartedEvent : Type 0 where
  pub message_id : ℕ
  pub role : ChatRole
  pub tool_call_id : String
  pub tool_name : String
  pub tool_call : ToolCallBlock
  pub status : ChatMessageStatus

pub record ToolCallDoneEvent : Type 0 where
  pub message_id : ℕ
  pub role : ChatRole
  pub tool_call_id : String
  pub tool_name : String
  pub tool_call : ToolCallBlock
  pub status : ChatMessageStatus

pub record ErrorEvent : Type 0 where
  pub message_id : ℕ
  pub role : ChatRole
  pub text : String
  pub provider_id : String
  pub model : String
  pub status : ChatMessageStatus

pub record FinishedEvent : Type 0 where
  pub message_id : ℕ

pub record CancelledEvent : Type 0 where
  pub message_id : ℕ
  pub role : ChatRole
  pub status : ChatMessageStatus

pub record UserMessageQueuedEvent : Type 0 where
  pub message_id : ℕ
  pub role : ChatRole
  pub text : String
  pub status : ChatMessageStatus
  pub role_label : String

pub record UserMessageActiveEvent : Type 0 where
  pub message_id : ℕ
  pub role : ChatRole
  pub status : ChatMessageStatus

pub record MessageStatusChangedEvent : Type 0 where
  pub message_id : ℕ
  pub role : ChatRole
  pub status : ChatMessageStatus

pub record QueueDepthChangedEvent : Type 0 where
  pub queue_depth : ℕ

pub record ConversationCompactedEvent : Type 0 where
  pub reason : CompactReason
  pub messages_removed : ℕ

pub record ModelChangedEvent : Type 0 where
  pub provider_id : String
  pub model : String

pub record ToolCallRequestedEvent : Type 0 where
  pub tool_calls : List ToolCallRequest

pub record ToolCallArgumentDeltaEvent : Type 0 where
  pub message_id : ℕ
  pub card_message_id : ℕ
  pub tool_call_id : String
  pub tool_name : String
  pub arguments_json : String

pub record ToolApprovalRequestedEvent : Type 0 where
  pub message_id : ℕ
  pub role : ChatRole
  pub text : String
  pub tool_call_id : String
  pub tool_name : String
  pub approval_id : String
  pub tool_call : ToolCallBlock
  pub status : ChatMessageStatus
  pub question : String
  pub options : List String

pub record UsageReportedEvent : Type 0 where
  pub provider_id : String
  pub model : String
  pub usage : TokenUsage

pub record SubAgentChildToolEvent : Type 0 where
  pub tool_call_id : String
  pub tool_name : String
  pub tool_call : ToolCallBlock
  pub status : ChatMessageStatus

pub record SubAgentProgressEvent : Type 0 where
  pub message_id : ℕ
  pub sub_agent_id : String
  pub sub_agent_task : String
  pub sub_agent_tool_count : ℕ
  pub status : ChatMessageStatus
  pub child_tool : Option SubAgentChildToolEvent

pub record SubAgentCompletedEvent : Type 0 where
  pub message_id : ℕ
  pub sub_agent_id : String
  pub sub_agent_task : String
  pub sub_agent_result : String
  pub sub_agent_tool_count : ℕ
  pub sub_agent_elapsed_ms : ℕ

pub record SubAgentErrorEvent : Type 0 where
  pub message_id : ℕ
  pub sub_agent_id : String
  pub sub_agent_task : String
  pub sub_agent_result : String
  pub sub_agent_tool_count : ℕ
  pub sub_agent_elapsed_ms : ℕ

pub record SubAgentCancelledEvent : Type 0 where
  pub message_id : ℕ
  pub sub_agent_id : String
  pub sub_agent_task : String

pub record AgentModeChangedEvent : Type 0 where
  pub mode : AgentMode

pub record McpServerStateChangedEvent : Type 0 where
  pub server_id : String
  pub state : String
  pub error : String

pub record McpAuthRequiredEvent : Type 0 where
  pub server_id : String
  pub hint_message : String

pub record McpProgressUpdateEvent : Type 0 where
  pub message_id : ℕ
  pub text : String

pub data ChatEvent : Type 0 where
  started : StartedEvent → ChatEvent
  text_delta : TextDeltaEvent → ChatEvent
  assistant_message_done : AssistantMessageDoneEvent → ChatEvent
  tool_call_started : ToolCallStartedEvent → ChatEvent
  tool_call_done : ToolCallDoneEvent → ChatEvent
  error : ErrorEvent → ChatEvent
  finished : FinishedEvent → ChatEvent
  cancelled : CancelledEvent → ChatEvent
  user_message_queued : UserMessageQueuedEvent → ChatEvent
  user_message_active : UserMessageActiveEvent → ChatEvent
  message_status_changed : MessageStatusChangedEvent → ChatEvent
  queue_depth_changed : QueueDepthChangedEvent → ChatEvent
  conversation_cleared : ChatEvent
  conversation_compacted : ConversationCompactedEvent → ChatEvent
  model_changed : ModelChangedEvent → ChatEvent
  tool_call_requested : ToolCallRequestedEvent → ChatEvent
  tool_call_argument_delta : ToolCallArgumentDeltaEvent → ChatEvent
  tool_approval_requested : ToolApprovalRequestedEvent → ChatEvent
  usage_reported : UsageReportedEvent → ChatEvent
  sub_agent_progress : SubAgentProgressEvent → ChatEvent
  sub_agent_completed : SubAgentCompletedEvent → ChatEvent
  sub_agent_error : SubAgentErrorEvent → ChatEvent
  sub_agent_cancelled : SubAgentCancelledEvent → ChatEvent
  agent_mode_changed : AgentModeChangedEvent → ChatEvent
  mcp_server_state_changed : McpServerStateChangedEvent → ChatEvent
  mcp_auth_required : McpAuthRequiredEvent → ChatEvent
  mcp_progress_update : McpProgressUpdateEvent → ChatEvent
