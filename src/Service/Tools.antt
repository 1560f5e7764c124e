-- ===== src/Service/Tools.antt =====
-- A round of tool calls: src/chat/tool_round_runner.cpp, as the chat service sets it up. Between two
-- steps of the worker `yield_to` runs the calls that the schedule `others` has for that moment.
-- `none` means that the worker still waits for an approval when the fuel of the wait runs out.
pub mod Wait
use Prim.Native.String.{String}
use Prim.Native.String
use text.Mathlib.Text.{◌==◌ as str_eq}
use yac.Common.{
  ℕ, zero, suc, Bool, true, false, ◌&&◌, not, Option, none, some, List, [], ◌∷◌, ◌++◌,
  if◌then◌else◌, ◌==◌,
}
use yac.Chat.Message.{ChatRole, ChatMessageStatus, ToolCallRequest}
use yac.Chat.Mode.{AgentMode, is_tool_allowed_for_mode}
use yac.Chat.Block.{
  ToolCallBlock, ToolExecutionResult, PlanExitCall, AskUserCall, SubAgentCall, SubAgentStatus,
}
use yac.Chat.Event.{ChatEvent}
use yac.Chat.Config.{ChatConfig}
use yac.Approvals.{request_approval, wait_ready, wait_take, ApprovalResolution}
use yac.History.{append_tool_result}
use yac.Service.State.{
  Service, Env, PreparedToolCall, Prepared, prepared, refused, emit, next_message_id,
  stop_requested,
}
use yac.Service.Calls.{Call, run_calls, is_plan}
use yac.Mcp.Naming.{is_mcp_tool_name}
use yac.Service.Cards.{
  make_fallback_prepared_tool_call, make_error_tool_result, make_rejected_tool_result,
}

pub record ToolPrepFailure : Type 0 where
  pub error : String
  pub result_json : String

pub record ToolPrep : Type 0 where
  pub call : PreparedToolCall
  pub failure : Option ToolPrepFailure

unfoldable pub plan_mode_denied_message : String → String
plan_mode_denied_message name =
    String.◌++◌ "Tool '" (String.◌++◌ name "' is not allowed in Plan mode.")

unfoldable pub plan_mode_permission_error : AgentMode → ToolCallRequest → Option String
unfolding plan_mode_denied_message
plan_mode_permission_error AgentMode.build request = none
plan_mode_permission_error AgentMode.plan request =
    if is_tool_allowed_for_mode AgentMode.plan request.name
    then none
    else some (plan_mode_denied_message request.name)

unfoldable pub prep_of : Env → ToolCallRequest → Prepared → ToolPrep
prep_of env request (prepared p) = record { call = p; failure = none }
prep_of env request (refused error json) = record {
  call = make_fallback_prepared_tool_call env request;
  failure = some (record { error = error; result_json = json });
}

unfoldable pub prepare_permitted : Env → Option String → ToolCallRequest → ToolPrep
prepare_permitted env (some error) request = record {
  call = make_fallback_prepared_tool_call env request;
  failure = some (record { error = error; result_json = env.error_json error });
}
prepare_permitted env none request = prep_of env request (
    if is_mcp_tool_name request.name then env.prepare_mcp request else env.prepare_built_in request)

-- `PrepareOneToolCall`, in the mode of the configuration at that moment.
unfoldable pub prepare_one_tool_call : Env → AgentMode → ToolCallRequest → ToolPrep
prepare_one_tool_call env mode request =
    prepare_permitted env (plan_mode_permission_error mode request) request

-- `ApplyApprovedPlanExit` of src/chat/chat_service.cpp, in three steps.
unfoldable pub plan_exit_error : Env → PlanExitCall → String → ToolExecutionResult
plan_exit_error env call message = record {
  block =
      ToolCallBlock.plan_exit (record call { approved = false; is_error = true; error = message });
  result_json = env.error_json message;
  is_error = true;
}

unfoldable pub plan_exit_done : Env → PlanExitCall → ToolExecutionResult
plan_exit_done env call = record {
  block = ToolCallBlock.plan_exit call;
  result_json = env.plan_exit_json call.plan_path;
  is_error = false;
}

-- `MaybeAwaitApproval`: whether the call may go on, or that the gate was left because of a stop.
pub data Gate : Type 0 where
  aborted : Service → Gate
  through : Bool → PreparedToolCall → Service → Gate
  waiting : Gate

unfoldable pub decided_gate : PreparedToolCall → Option (Bool × Service) → Gate
decided_gate call none = waiting
decided_gate call (some (approved, s)) = through approved call s

module _ (env : Env) (others : ℕ → List Call) where
  -- Other threads run.
  unfoldable pub yield_to : Service → Service
  yield_to s = run_calls env (record s { clock = suc s.clock }) (others s.clock)

  -- The path of the active plan, if the session is in Plan mode and has one.
  unfoldable pub plan_target : Service → Option String
  plan_target s = if is_plan s.config.agent_mode then s.config.active_plan_path else none

  unfoldable pub leave_plan : Service → String → Service
  leave_plan s path =
      emit
        (yield_to (record s {
          config = record s.config {
            agent_mode = AgentMode.build;
            build_switch_plan_path = some path;
          };
        }))
        (ChatEvent.agent_mode_changed (record { mode = AgentMode.build }))

  unfoldable pub exit_plan : Option String → Service → PlanExitCall → ToolExecutionResult × Service
  exit_plan none s call = (
    plan_exit_error env (record call { plan_path = "" })
        "plan_exit requires an active Plan session.",
    s,
  )
  exit_plan (some path) s call =
      let s1 = yield_to s in
      if env.write_approved_plan path call.plan
      then (
        plan_exit_done env (record call { plan_path = path; approved = true }),
        leave_plan s1 path,
      )
      else (
        plan_exit_error env (record call { plan_path = path }) "Failed to write active plan file.",
        s1,
      )

  unfoldable pub apply_approved_plan_exit : Service → PlanExitCall → ToolExecutionResult × Service
  unfolding exit_plan
  apply_approved_plan_exit s call = let s1 = yield_to s in exit_plan (plan_target s1) s1 call

  -- The wait for a decision, by fuel.
  unfoldable pub take_decision : Service → String → Bool × Service
  take_decision s k =
      let (r, a) = wait_take s.approvals k (stop_requested s) in
      (r.approved, record s { approvals = a; resolutions = s.resolutions ++ (k, r.approved) ∷ [] })

  unfoldable pub await_decision : ℕ → Service → String → Option (Bool × Service)
  await_decision zero s k = none
  await_decision (suc fuel) s k =
      let s1 = yield_to s in
      let rest = await_decision fuel s1 k in
      if wait_ready s1.approvals k (stop_requested s1) then some (take_decision s1 k) else rest

  unfoldable pub question_of : ToolCallBlock → String × List String
  question_of (ToolCallBlock.ask_user c) = (c.question, c.options)
  question_of _ = ("", [])

  unfoldable pub ask : Service → PreparedToolCall → ToolCallRequest → ℕ → PreparedToolCall × Service
  ask s call request card =
      let s1 = yield_to s in
      let (k, a) = request_approval s1.approvals request.id request.name request.arguments_json in
      let call' = record call { approval_id = k } in
      let (question, options) = question_of call.preview in
      (
        call',
        emit (yield_to (record s1 { approvals = a })) (
            ChatEvent.tool_approval_requested (record {
              message_id = card;
              role = ChatRole.tool;
              text = call.approval_prompt;
              tool_call_id = request.id;
              tool_name = request.name;
              approval_id = k;
              tool_call = call.preview;
              status = ChatMessageStatus.queued;
              question = question;
              options = options;
            })),
      )

  unfoldable pub maybe_await_approval : ℕ → Service → PreparedToolCall → ToolCallRequest → ℕ → Gate
  maybe_await_approval fuel s call request card =
      let s1 = yield_to s in
      let (call', s2) = ask s1 call request card in
      if stop_requested s1
      then aborted s1
      else if str_eq request.name "ask_user"
      then through true call' s2
      else decided_gate call' (await_decision fuel s2 call'.approval_id)
