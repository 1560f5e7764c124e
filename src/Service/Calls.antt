-- ===== src/Service/Calls.antt =====
-- The public operations of class ChatService that change its state, in src/chat/chat_service.cpp.
-- `ResetConversation` is three steps, between which other threads run: `reset_signal`, the wait for
-- the worker, which changes nothing, and `reset_clear`.
use Prim.Native.String.{String}
use text.Mathlib.Text.{◌==◌}
use yac.Common.{
  ℕ, suc, ◌+◌, Bool, true, false, ◌&&◌, ◌||◌, not, Option, none, some, List, [], ◌∷◌, ◌++◌,
  if◌then◌else◌, length,
}
use yac.Chat.Message.{ChatRole, ChatMessageStatus, plain}
use yac.Chat.Mode.{AgentMode}
use yac.Chat.Event.{ChatEvent, CompactReason}
use yac.Chat.Config.{ReasoningEffort}
use yac.Approvals.{resolve_tool_approval, resolve_ask_user, cancel_pending}
use yac.History.{compact}
use yac.Service.State.{Service, Env, emit, next_message_id, request_stop}
use yac.Service.Settings.{set_model, set_reasoning_effort}

abbrev pub is_plan : AgentMode → Bool
is_plan AgentMode.plan = true
is_plan AgentMode.build = false

abbrev pub same_mode : AgentMode → AgentMode → Bool
same_mode AgentMode.plan m = is_plan m
same_mode AgentMode.build m = not (is_plan m)

abbrev pub is_empty {ℓ} : {A : Type ℓ} → List A → Bool
is_empty [] = true
is_empty (x ∷ xs) = false

abbrev has_value {ℓ} : {A : Type ℓ} → Option A → Bool
has_value none = false
has_value (some a) = true

unfoldable pub emit_queue_depth : Service → Service
emit_queue_depth s =
    emit s (ChatEvent.queue_depth_changed (record { queue_depth = length s.pending }))

unfoldable pub queued_event : ℕ → String → ChatMessageStatus → String → ChatEvent
queued_event i text status label = ChatEvent.user_message_queued (record {
  message_id = i;
  role = ChatRole.user;
  text = text;
  status = status;
  role_label = label;
})

unfoldable pub inject_sub_agent_continuation : Service → String → Service
unfolding emit_queue_depth queued_event
inject_sub_agent_continuation s body =
    let (i, s1) = next_message_id s in
    let was_idle = not s1.active && is_empty s1.pending in
    let s2 =
      if was_idle
      then record s1 { pending = s1.pending ++ record { id = i; content = body } ∷ [] }
      else record s1 {
        history = s1.history ++ plain i ChatRole.user ChatMessageStatus.complete body ∷ [];
      } in
    let s3 = emit s2 (queued_event i body ChatMessageStatus.complete "Sub-agent") in
    if was_idle then emit_queue_depth s3 else s3

module _ (env : Env) where
  open env use {new_session_id, ensure_plan_path}

  -- `GenerateChatSessionId`, whose id is never empty.
  unfoldable pub generate_chat_session_id : Service → String × Service
  generate_chat_session_id s =
      (new_session_id s.sessions_made, record s { sessions_made = suc s.sessions_made })

  unfoldable pub ensure_chat_session_id_locked : Service → Service
  unfolding generate_chat_session_id
  ensure_chat_session_id_locked s =
      let (fresh, s') = generate_chat_session_id s in
      let made = record s' { config = record s'.config { chat_session_id = some fresh } } in
      elim s.config.chat_session_id [ none ↦ made | some t ↦ if t == "" then made else s ]

  unfoldable pub ensure_plan_session_locked : Service → String → Service
  ensure_plan_session_locked s first_user_prompt =
      let entered = record s { config = record s.config { has_entered_plan_mode = true } } in
      elim s.config.active_plan_path [
        | some p ↦ entered
        | none ↦ elim (ensure_plan_path s.config.workspace_root first_user_prompt) [
          | none ↦ entered
          | some p ↦ record entered { config = record entered.config { active_plan_path = some p } }
        ]
      ]

  unfoldable pub submit_user_message : Service → String → ℕ × Service
  unfolding ensure_chat_session_id_locked ensure_plan_session_locked emit_queue_depth queued_event
  submit_user_message s content =
      let (i, s1) = next_message_id s in
      let s2 = ensure_chat_session_id_locked s1 in
      let s3 = if is_plan s2.config.agent_mode then ensure_plan_session_locked s2 content else s2 in
      let s4 = record s3 { pending = s3.pending ++ record { id = i; content = content } ∷ [] } in
      let s5 = emit s4 (queued_event i content ChatMessageStatus.queued "") in
      (i, emit_queue_depth s5)

  -- The last of the three steps of `ResetConversation`.
  unfoldable pub reset_clear : Service → Service
  unfolding generate_chat_session_id
  reset_clear s =
      let (session, s1) = generate_chat_session_id s in
      let s2 = record s1 {
        generation = s1.generation + 1;
        history = [];
        last_usage = none;
        config = record s1.config {
          agent_mode = AgentMode.build;
          has_entered_plan_mode = false;
          active_plan_path = none;
          build_switch_plan_path = none;
          chat_session_id = some session;
        };
      } in
      let s3 = record s2 { approvals = cancel_pending s2.approvals; todos = [] } in
      emit (emit s3 ChatEvent.conversation_cleared)
        (ChatEvent.agent_mode_changed (record { mode = AgentMode.build }))

unfoldable pub cancel_active_response : Service → Service
cancel_active_response s =
    if s.active
    then record s {
      generation = s.generation + 1;
      active_stop = request_stop s.active_stop;
      approvals = cancel_pending s.approvals;
    }
    else s

unfoldable pub resolve_approval : Service → String → Bool → Service
resolve_approval s k approved = record s {
  approvals = resolve_tool_approval s.approvals k approved;
}

unfoldable pub answer_user : Service → String → String → Service
answer_user s k response = record s { approvals = resolve_ask_user s.approvals k response }

unfoldable pub set_agent_mode : Service → AgentMode → Service
set_agent_mode s mode =
    let entered = if is_plan mode then true else s.config.has_entered_plan_mode in
    let s1 = record s {
      config = record s.config { agent_mode = mode; has_entered_plan_mode = entered };
    } in
    if same_mode s.config.agent_mode mode
    then s
    else emit s1 (ChatEvent.agent_mode_changed (record { mode = mode }))

-- The first of the three steps of `ResetConversation`: the first bump of the generation comes before
-- the lock, which makes no difference to what follows.
unfoldable pub reset_signal : Service → Service
reset_signal s = record s {
  generation = s.generation + 1;
  pending = [];
  active_stop = request_stop s.active_stop;
}

unfoldable pub compact_conversation : Service → ℕ → Service
compact_conversation s keep_last =
    let (h, removed) = compact s.history keep_last in
    let event =
      ChatEvent.conversation_compacted
        (record { reason = CompactReason.manual; messages_removed = removed }) in
    if s.active || not (is_empty s.pending) then s else emit (record s { history = h }) event

unfoldable pub is_busy : Service → Bool
is_busy s = s.active || not (is_empty s.pending)

-- The calls that other threads make while the worker runs. (`SetProvider` is not among them, since
-- it may not return.)
pub data Call : Type 0 where
  submit : String → Call
  inject : String → Call
  model : String → Call
  effort : Option ReasoningEffort → Call
  cancels : Call
  resolve : String → Bool → Call
  answer : String → String → Call
  mode : AgentMode → Call
  signal_reset : Call
  clear_reset : Call
  compacts : ℕ → Call

module _ (env : Env) where
  unfoldable pub act : Service → Call → Service
  act s (submit t) = (submit_user_message env s t).1
  act s (inject t) = inject_sub_agent_continuation s t
  act s (model m) = set_model s m
  act s (effort e) = set_reasoning_effort s e
  act s cancels = cancel_active_response s
  act s (resolve k b) = resolve_approval s k b
  act s (answer k t) = answer_user s k t
  act s (mode m) = set_agent_mode s m
  act s signal_reset = reset_signal s
  act s clear_reset = reset_clear env s
  act s (compacts n) = compact_conversation s n

  unfoldable pub run_calls : Service → List Call → Service
  run_calls s [] = s
  run_calls s (c ∷ cs) = run_calls (act s c) cs
