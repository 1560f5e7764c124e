-- ===== src/SubAgents/Completion.antt =====
-- How a sub-agent ends, and what the conversation is told: `RunSession` behind the prompt,
-- `EmitSessionCompleted` and `DeliverBackgroundResult` of src/chat/sub_agent_manager.cpp, and
-- src/chat/sub_agent_event_adapter.cpp. Lengths count characters; the code counts bytes.
use Prim.Native.String.{String, len, slice}
use Prim.Native.String
use text.Mathlib.Text.{◌==◌}
use yac.Common.{
  ℕ, ◌+◌, ◌-◌, Bool, true, false, ◌&&◌, ◌||◌, not, Option, none, some, List, [], ◌∷◌, ◌++◌,
  if◌then◌else◌, leb,
}
use yac.Common.Text.{to_string}
use yac.Chat.Message.{ChatRole, ChatMessageStatus, ChatMessage}
use yac.Chat.Event.{ChatEvent, SubAgentChildToolEvent}
use yac.SubAgents.{SubAgentSession, SubAgentManager, parent_emit}

abbrev pub max_result_chars : ℕ
max_result_chars = 4096

unfoldable pub truncate_with_ellipsis : String → ℕ → String
truncate_with_ellipsis text max_chars =
    if leb (len text) max_chars
    then text
    else if leb max_chars 3
    then slice text 0 max_chars
    else String.◌++◌ (slice text 0 (max_chars - 3)) "..."

abbrev pub is_assistant : ChatRole → Bool
is_assistant ChatRole.assistant = true
is_assistant _ = false

-- The content of the last answer that has one; `found` is what the messages before give.
unfoldable pub last_assistant_from : String → List ChatMessage → String
last_assistant_from found [] = found
last_assistant_from found (m ∷ history) =
    last_assistant_from (if is_assistant m.role && not (m.content == "") then m.content else found)
      history

abbrev pub last_assistant_message : List ChatMessage → String
last_assistant_message history = last_assistant_from "" history

pub data CompletionType : Type 0 where
  completed failed cancelled : CompletionType

pub record SubAgentCompletion : Type 0 where
  pub kind : CompletionType
  pub status : ChatMessageStatus
  pub result : String
  pub tool_count : ℕ

-- The type, status and result of a run; `threw` is the text of the exception of the prompt.
unfoldable pub classify :
    ℕ → SubAgentSession → Option String → CompletionType × ChatMessageStatus × String
classify timeout_seconds s (some text) = (failed, ChatMessageStatus.error, text)
classify timeout_seconds s none =
    let result = last_assistant_message s.history in
    if s.timed_out
    then (
      failed,
      ChatMessageStatus.error,
      String.◌++◌ "Sub-agent timed out after "
          (String.◌++◌ (to_string timeout_seconds) " seconds."),
    )
    else if s.cancelled || ((result == "") && s.stop_requested)
    then (cancelled, ChatMessageStatus.cancelled, "Sub-agent cancelled.")
    else (completed, ChatMessageStatus.complete, result)

unfoldable pub completion_of : ℕ → SubAgentSession → Option String → SubAgentCompletion
completion_of timeout_seconds s threw =
    let (kind, status, result) = classify timeout_seconds s threw in
    record {
      kind = kind;
      status = status;
      result = truncate_with_ellipsis result max_result_chars;
      tool_count = s.completed_tool_count;
    }

-- `MakeSubAgentCompletionEvent`
abbrev pub make_sub_agent_completion_event :
    CompletionType → ℕ → String → String → String → ℕ → ℕ → ChatEvent
make_sub_agent_completion_event cancelled message_id sub_agent_id task result tool_count
      elapsed_ms =
    ChatEvent.sub_agent_cancelled
      (record { message_id = message_id; sub_agent_id = sub_agent_id; sub_agent_task = task })
make_sub_agent_completion_event failed message_id sub_agent_id task result tool_count elapsed_ms =
    ChatEvent.sub_agent_error (record {
      message_id = message_id;
      sub_agent_id = sub_agent_id;
      sub_agent_task = task;
      sub_agent_result = result;
      sub_agent_tool_count = tool_count;
      sub_agent_elapsed_ms = elapsed_ms;
    })
make_sub_agent_completion_event completed message_id sub_agent_id task result tool_count
      elapsed_ms =
    ChatEvent.sub_agent_completed (record {
      message_id = message_id;
      sub_agent_id = sub_agent_id;
      sub_agent_task = task;
      sub_agent_result = result;
      sub_agent_tool_count = tool_count;
      sub_agent_elapsed_ms = elapsed_ms;
    })

abbrev pub completion_event : SubAgentManager → SubAgentSession → SubAgentCompletion → ChatEvent
completion_event m s c =
    make_sub_agent_completion_event c.kind s.card_message_id s.agent_id s.task c.result c.tool_count
      (m.now - s.started_at)

unfoldable pub emit_session_completed :
    SubAgentManager → SubAgentSession → SubAgentCompletion → SubAgentManager
emit_session_completed m s c = parent_emit m (completion_event m s c)

abbrev pub is_failure : ChatMessageStatus → Bool
is_failure ChatMessageStatus.error = true
is_failure ChatMessageStatus.cancelled = true
is_failure _ = false

abbrev pub continuation : SubAgentSession → SubAgentCompletion → String
continuation s c =
    String.◌++◌
      (if is_failure c.status
        then "[Background sub-agent failed]"
        else "[Background sub-agent completed]")
      (String.◌++◌ " Task: " (String.◌++◌ s.task (String.◌++◌ "\n\nResult:\n" c.result)))

unfoldable pub deliver_background_result :
    SubAgentManager → SubAgentSession → SubAgentCompletion → SubAgentManager
deliver_background_result m s c =
    if m.has_injector then record m { injected = m.injected ++ (continuation s c ∷ []) } else m

-- The id of a child's tool call: its own, or one made of the agent and the message.
abbrev pub child_id : SubAgentSession → String → ℕ → String
child_id s tool_call_id message_id =
    if tool_call_id == ""
    then String.◌++◌ s.agent_id (String.◌++◌ ":" (to_string message_id))
    else tool_call_id

abbrev pub progress_event : SubAgentSession → ℕ → SubAgentChildToolEvent → ChatEvent
progress_event s tool_count child = ChatEvent.sub_agent_progress (record {
  message_id = s.card_message_id;
  sub_agent_id = s.agent_id;
  sub_agent_task = s.task;
  sub_agent_tool_count = tool_count;
  status = ChatMessageStatus.active;
  child_tool = some child;
})

-- What the conversation sees of an event of the sub-agent, and the number of finished tool calls.
unfoldable pub adapt_sub_agent_prompt_event : SubAgentSession → ChatEvent → Option ChatEvent × ℕ
adapt_sub_agent_prompt_event s (ChatEvent.tool_approval_requested e) =
    let text =
      String.◌++◌ "[Sub-agent: "
        (String.◌++◌ (truncate_with_ellipsis s.task 48) (String.◌++◌ "] " e.text)) in
    (
      some (
          ChatEvent.tool_approval_requested
            (record e { message_id = s.card_message_id; text = text })),
      s.completed_tool_count,
    )
adapt_sub_agent_prompt_event s (ChatEvent.tool_call_started e) = (
  some (
      progress_event s s.completed_tool_count (record {
        tool_call_id = child_id s e.tool_call_id e.message_id;
        tool_name = e.tool_name;
        tool_call = e.tool_call;
        status = e.status;
      })),
  s.completed_tool_count,
)
adapt_sub_agent_prompt_event s (ChatEvent.tool_call_done e) = (
  some (
      progress_event s (s.completed_tool_count + 1) (record {
        tool_call_id = child_id s e.tool_call_id e.message_id;
        tool_name = e.tool_name;
        tool_call = e.tool_call;
        status = e.status;
      })),
  s.completed_tool_count + 1,
)
adapt_sub_agent_prompt_event s event = (none, s.completed_tool_count)
