-- ===== src/Chat/Message.antt =====
-- src/core_types/chat_ids.hpp, and struct ChatMessage of src/chat/types.hpp.
use Prim.Native.String.{String}
use yac.Common.{ℕ, Bool, true, false, List, []}

pub data ChatRole : Type 0 where
  system user assistant tool : ChatRole

pub data ChatMessageStatus : Type 0 where
  queued active complete cancelled error : ChatMessageStatus

pub record ToolDefinition : Type 0 where
  pub name : String
  pub description : String
  pub parameters_schema_json : String

pub record ToolCallRequest : Type 0 where
  pub id : String
  pub name : String
  pub arguments_json : String

-- The counts are non-negative wherever the code reads them.
pub record TokenUsage : Type 0 where
  pub prompt_tokens : ℕ
  pub completion_tokens : ℕ
  pub total_tokens : ℕ

pub record ChatMessage : Type 0 where
  pub id : ℕ
  pub role : ChatRole
  pub status : ChatMessageStatus
  pub content : String
  pub tool_calls : List ToolCallRequest
  pub tool_call_id : String
  pub tool_name : String

-- `message.role != ChatRole::System`.
abbrev pub non_system_role : ChatRole → Bool
non_system_role ChatRole.system = false
non_system_role ChatRole.user = true
non_system_role ChatRole.assistant = true
non_system_role ChatRole.tool = true

abbrev pub non_system : ChatMessage → Bool
non_system m = non_system_role m.role

-- A message with the fields that no initialiser of the code names left at their defaults.
abbrev pub plain : ℕ → ChatRole → ChatMessageStatus → String → ChatMessage
plain i r s t = record {
  id = i;
  role = r;
  status = s;
  content = t;
  tool_calls = [];
  tool_call_id = "";
  tool_name = "";
}
