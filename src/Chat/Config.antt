-- ===== src/Chat/Config.antt =====
-- The part of struct ChatConfig (src/chat/types.hpp) that the chat service reads and writes, and
-- struct ChatRequest. The two `double` values, a temperature and the compaction threshold, are
-- numbers of thousandths here.
use Prim.Native.String.{String}
use yac.Common.{ℕ, Bool, Option, List}
use yac.Chat.Message.{ChatMessage, ToolDefinition}
use yac.Chat.Mode.{AgentMode}

pub data ReasoningEffort : Type 0 where
  none minimal low medium high x_high : ReasoningEffort

pub record ProviderModelSettings : Type 0 where
  pub provider_id : String
  pub model : String
  pub effort : Option ReasoningEffort

pub record ChatConfig : Type 0 where
  pub provider_id : String
  pub profile_id : Option String
  pub model : String
  pub temperature : ℕ
  pub workspace_root : String
  pub system_prompt : Option String
  pub agent_mode : AgentMode
  pub has_entered_plan_mode : Bool
  pub active_plan_path : Option String
  pub build_switch_plan_path : Option String
  pub chat_session_id : Option String
  pub auto_compact_enabled : Bool
  pub auto_compact_threshold : ℕ
  pub auto_compact_keep_last : ℕ
  pub auto_compact_mode : String
  pub model_settings : List ProviderModelSettings

pub record ChatRequest : Type 0 where
  pub provider_id : String
  pub model : String
  pub responses_instructions : Option String
  pub session_id : Option String
  pub messages : List ChatMessage
  pub tools : List ToolDefinition
  pub temperature : ℕ
  pub reasoning_effort : Option ReasoningEffort
  pub stream : Bool
