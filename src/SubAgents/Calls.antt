-- ===== src/SubAgents/Calls.antt =====
-- The public operations of class SubAgentManager and the steps of the threads that run its sessions,
-- in src/chat/sub_agent_manager.cpp.
use Prim.Native.String.{String}
use Prim.Native.String
use yac.Common.{
  ℕ, suc, ◌+◌, Bool, true, false, ◌&&◌, not, Option, none, some, List, [], ◌∷◌, if◌then◌else◌, map,
  ltb, leb,
}
use yac.Common.Int.{pos}
use yac.Common.Text.{to_string}
use yac.Chat.Message.{ChatRole, ChatMessageStatus, ChatMessage}
use yac.Chat.Block.{SubAgentMode, SubAgentStatus, ToolCallBlock}
use yac.Chat.Event.{ChatEvent}
use yac.SubAgents.{
  SubAgentSession, SubAgentManager, max_concurrent_sub_agents, find_session, change_session,
  parent_emit, create_session, cleanup_finished_sessions, try_store_session, has_key,
  remove_session, request_session_stop, is_at_capacity,
}
use yac.SubAgents.Completion.{
  completion_of, emit_session_completed, deliver_background_result, failed,
  make_sub_agent_completion_event, adapt_sub_agent_prompt_event,
}

abbrev pub capacity_error : String
capacity_error =
    String.◌++◌ "Sub-agent capacity reached (max "
      (String.◌++◌ (to_string max_concurrent_sub_agents) ").")

-- The first half of both kinds of spawning: the id of the session that runs now, if there is room;
-- else the caller gets `capacity_error`.
unfoldable pub start_session :
    SubAgentManager → String → SubAgentMode → ℕ → String → Option String × SubAgentManager
start_session m task mode card_message_id tool_call_id =
    let (session, created) = create_session m task mode card_message_id tool_call_id in
    let (stored, after) = try_store_session created session.agent_id in
    (if stored then some session.agent_id else none, after)

-- The end of the run of a session: the history that its prompt leaves, and what it threw.
unfoldable pub end_foreground :
    SubAgentManager → SubAgentSession → Option String → String × SubAgentManager
end_foreground m s threw =
    let completion = completion_of m.timeout_seconds s threw in
    (completion.result, remove_session (emit_session_completed m s completion) s.agent_id)

unfoldable pub end_background : SubAgentManager → SubAgentSession → Option String → SubAgentManager
end_background m s threw =
    let completion = completion_of m.timeout_seconds s threw in
    change_session (deliver_background_result (emit_session_completed m s completion) s completion)
      s.agent_id (λ session. record session { finished = true })

abbrev pub is_background : SubAgentMode → Bool
is_background SubAgentMode.background = true
is_background SubAgentMode.foreground = false

abbrev pub with_history : List ChatMessage → SubAgentSession → SubAgentSession
with_history history s = record s { history = history }

abbrev pub end_found : SubAgentManager → Option SubAgentSession → Option String → SubAgentManager
end_found m none threw = m
end_found m (some s) threw =
    if is_background s.mode then end_background m s threw else (end_foreground m s threw).1

unfoldable pub end_session :
    SubAgentManager → String → List ChatMessage → Option String → SubAgentManager
end_session m id history threw =
    let done = change_session m id (with_history history) in
    end_found done (find_session done.sessions id) threw

unfoldable pub spawn_foreground :
    SubAgentManager → String → ℕ → String → Option String × SubAgentManager
spawn_foreground m task card_message_id tool_call_id =
    start_session m task SubAgentMode.foreground card_message_id tool_call_id

unfoldable pub spawn_background_session :
    SubAgentManager → String → ℕ → String → Option String × SubAgentManager
spawn_background_session m task card_message_id tool_call_id =
    start_session m task SubAgentMode.background card_message_id tool_call_id

abbrev pub value_or_capacity_error : Option String × SubAgentManager → String × SubAgentManager
value_or_capacity_error (none, m) = (capacity_error, m)
value_or_capacity_error (some id, m) = (id, m)

unfoldable pub spawn_background : SubAgentManager → String → ℕ → String → String × SubAgentManager
spawn_background m task card_message_id tool_call_id =
    value_or_capacity_error (spawn_background_session m task card_message_id tool_call_id)

unfoldable pub user_task_started : ℕ → String → ChatEvent
user_task_started card_id task = ChatEvent.tool_call_started (record {
  message_id = card_id;
  role = ChatRole.tool;
  tool_call_id = String.◌++◌ "user-task-" (to_string card_id);
  tool_name = "sub_agent";
  tool_call = ToolCallBlock.sub_agent (record {
    task = task;
    mode = SubAgentMode.background;
    status = SubAgentStatus.running;
    agent_id = "";
    result = "";
    result_summary = "";
    tool_count = pos 0;
    elapsed_ms = pos 0;
  });
  status = ChatMessageStatus.active;
})

-- The card is resolved by an error at once if there is no room for the task.
abbrev pub settle_card : ℕ → String → Option String × SubAgentManager → String × SubAgentManager
settle_card card_id task (some id, m) = (id, m)
settle_card card_id task (none, m) =
    ("", parent_emit m (make_sub_agent_completion_event failed card_id "" task capacity_error 0 0))

abbrev pub spawn_for_card : SubAgentManager → String → Option ℕ → String × SubAgentManager
spawn_for_card m task none = ("", m)
spawn_for_card m task (some card_id) =
    let shown =
      parent_emit (record m { next_message_id = some (suc card_id) })
        (user_task_started card_id task) in
    settle_card card_id task
      (spawn_background_session shown task card_id (String.◌++◌ "user-task-" (to_string card_id)))

unfoldable pub spawn_background_from_user : SubAgentManager → String → String × SubAgentManager
spawn_background_from_user m task = spawn_for_card m task m.next_message_id

unfoldable pub cancel_sub_agent : SubAgentManager → String → SubAgentManager
cancel_sub_agent m agent_id =
    let cleaned = cleanup_finished_sessions m in
    if has_key cleaned.active agent_id
    then change_session cleaned agent_id (request_session_stop true)
    else cleaned

abbrev pub stop_if_active : List String → SubAgentSession → SubAgentSession
stop_if_active active s = if has_key active s.agent_id then request_session_stop true s else s

unfoldable pub cancel_all_sub_agents : SubAgentManager → SubAgentManager
cancel_all_sub_agents m = record m {
  sessions = map (stop_if_active m.active) m.sessions;
  active = [];
}

abbrev pub time_out : SubAgentSession → SubAgentSession
time_out s = request_session_stop false (record s { timed_out = true })

-- A look of the watchdog at its session.
unfoldable pub watch : SubAgentManager → String → SubAgentManager
watch m id =
    change_session m id
      (λ s. if not s.stop_requested && leb s.deadline m.now then time_out s else s)

abbrev pub emit_adapted : SubAgentManager → String → Option ChatEvent × ℕ → SubAgentManager
emit_adapted m id (none, count) = m
emit_adapted m id (some event, count) =
    parent_emit (change_session m id (λ s. record s { completed_tool_count = count })) event

abbrev pub adapted : SubAgentManager → String → Option SubAgentSession → ChatEvent → SubAgentManager
adapted m id none event = m
adapted m id (some s) event = emit_adapted m id (adapt_sub_agent_prompt_event s event)

-- An event of the prompt of a session: `MakeFilteredEmit`.
unfoldable pub filtered_emit : SubAgentManager → String → ChatEvent → SubAgentManager
filtered_emit m id event =
    let checked =
      change_session m id
        (λ s. if ltb s.deadline m.now && not s.stop_requested then time_out s else s) in
    adapted checked id (find_session checked.sessions id) event

-- The calls and the steps of the threads, in any order.
pub data Call : Type 0 where
  foreground_starts background_starts : String → ℕ → String → Call
  user_starts cancels ticks_watchdog parent_stops : String → Call
  cancels_all asks_capacity : Call
  ends : String → List ChatMessage → Option String → Call
  emits : String → ChatEvent → Call
  waits : ℕ → Call

unfoldable pub act : SubAgentManager → Call → SubAgentManager
act m (Call.foreground_starts task card tool_call_id) =
    (spawn_foreground m task card tool_call_id).1
act m (Call.background_starts task card tool_call_id) =
    (spawn_background m task card tool_call_id).1
act m (Call.user_starts task) = (spawn_background_from_user m task).1
act m (Call.cancels id) = cancel_sub_agent m id
act m (Call.ticks_watchdog id) = watch m id
act m (Call.parent_stops id) = change_session m id (request_session_stop true)
act m Call.cancels_all = cancel_all_sub_agents m
act m Call.asks_capacity = (is_at_capacity m).1
act m (Call.ends id history threw) = end_session m id history threw
act m (Call.emits id event) = filtered_emit m id event
act m (Call.waits time) = record m { now = m.now + time }

unfoldable pub run_calls : SubAgentManager → List Call → SubAgentManager
run_calls m [] = m
run_calls m (c ∷ calls) = run_calls (act m c) calls
