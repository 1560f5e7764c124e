-- ===== src/History.antt =====
-- The conversation history: src/chat/chat_history_store.cpp and src/chat/chat_service_history.cpp.
-- The store is a list of messages, oldest first; the mutex that guards it is the atomicity of each
-- operation here.
pub mod Truncate
pub mod Summarize
use Prim.Native.String.{String}
use Prim.Native.String
use yac.Common.{
  ℕ, suc, ◌+◌, ◌-◌, Bool, true, false, ◌&&◌, not, List, [], ◌∷◌, ◌++◌, ltb, leb, if◌then◌else◌,
}
use yac.Common.Text.{to_string}
use yac.Chat.Block.{ToolExecutionResult}
use yac.Chat.Message.{ChatMessage, ChatRole, ChatMessageStatus, ToolCallRequest, non_system, plain}

pub append_active_user_message : List ChatMessage → ℕ → String → List ChatMessage
append_active_user_message h i content =
    h ++ plain i ChatRole.user ChatMessageStatus.active content ∷ []

pub append_assistant_tool_round :
    List ChatMessage → ℕ → String → List ToolCallRequest → List ChatMessage
append_assistant_tool_round h i content calls =
    h
    ++ record (plain i ChatRole.assistant ChatMessageStatus.complete content) { tool_calls = calls }
      ∷ []

unfoldable pub append_tool_result :
    List ChatMessage → ℕ → ToolCallRequest → ToolExecutionResult → List ChatMessage
append_tool_result h i request result =
    h
    ++ record (plain i ChatRole.tool
        (if result.is_error then ChatMessageStatus.error else ChatMessageStatus.complete)
        result.result_json) { tool_call_id = request.id; tool_name = request.name }
      ∷ []

pub append_final_assistant_message : List ChatMessage → ℕ → String → List ChatMessage
append_final_assistant_message h i content =
    h ++ plain i ChatRole.assistant ChatMessageStatus.complete content ∷ []

unfoldable pub count_non_system : List ChatMessage → ℕ
count_non_system [] = 0
count_non_system (m ∷ ms) = if non_system m then suc (count_non_system ms) else count_non_system ms

unfoldable pub has_non_system_messages : List ChatMessage → Bool
has_non_system_messages [] = false
has_non_system_messages (m ∷ ms) = if non_system m then true else has_non_system_messages ms

-- [begin, first_non_system) and [first_non_system, end).
pub system_prefix : List ChatMessage → List ChatMessage
system_prefix [] = []
system_prefix (m ∷ ms) = if non_system m then [] else m ∷ system_prefix ms

pub from_first_non_system : List ChatMessage → List ChatMessage
from_first_non_system [] = []
from_first_non_system (m ∷ ms) = if non_system m then m ∷ ms else from_first_non_system ms

-- The copying loop: `removed` counts the messages left out so far.
pub skip_non_system : ℕ → ℕ → List ChatMessage → List ChatMessage
skip_non_system removed to_remove [] = []
skip_non_system removed to_remove (m ∷ ms) =
    let hit = non_system m && ltb removed to_remove in
    let rest = skip_non_system (if hit then removed + 1 else removed) to_remove ms in
    if hit then rest else m ∷ rest

unfoldable pub compaction_note : ℕ → ChatMessage
compaction_note to_remove = plain 0 ChatRole.system ChatMessageStatus.complete (
    String.◌++◌ "[Earlier conversation compacted. "
      (String.◌++◌ (to_string to_remove) " messages removed.]"))

-- `CompactHistory`.
pub compact_history : List ChatMessage → ℕ → List ChatMessage
compact_history h keep_last =
    let n = count_non_system h in
    if leb n keep_last
    then h
    else system_prefix h
      ++ (compaction_note (n - keep_last)
          ∷ skip_non_system 0 (n - keep_last) (from_first_non_system h))

-- `ChatHistoryStore::Compact`: the new history and the number of messages removed.
pub compact : List ChatMessage → ℕ → List ChatMessage × ℕ
compact h keep_last =
    let before = count_non_system h in
    (compact_history h keep_last, if ltb keep_last before then before - keep_last else 0)

-- The messages of the conversation proper.
unfoldable pub conversation : List ChatMessage → List ChatMessage
conversation [] = []
conversation (m ∷ ms) = if non_system m then m ∷ conversation ms else conversation ms

unfoldable pub system_messages : List ChatMessage → List ChatMessage
system_messages [] = []
system_messages (m ∷ ms) = if non_system m then system_messages ms else m ∷ system_messages ms
