-- ===== src/Service/Rounds.antt =====
-- `ToolRoundRunner::Run` and `ExecuteOneToolCall` of src/chat/tool_round_runner.cpp: the calls of a
-- round one by one.
pub mod Record
pub mod GatePass
pub mod Execution
pub mod Approval
pub mod Keeps
pub mod Results
pub mod Answers
pub mod Finish
use Prim.Native.String.{String}
use text.Mathlib.Text.{◌==◌ as str_eq}
use yac.Common.{
  ℕ, suc, Bool, true, false, ◌&&◌, not, Option, none, some, List, [], ◌∷◌, ◌++◌, if◌then◌else◌,
  ◌==◌,
}
use yac.Chat.Message.{ChatRole, ChatMessageStatus, ToolCallRequest}
use yac.Chat.Mode.{AgentMode}
use yac.Chat.Block.{ToolCallBlock, ToolExecutionResult, SubAgentStatus}
use yac.Chat.Event.{ChatEvent}
use yac.History.{append_tool_result}
use yac.Service.State.{
  Service, Env, PreparedToolCall, Ran, returned, threw, emit, next_message_id, stop_requested,
}
use yac.Service.Calls.{Call}
use yac.Service.Cards.{make_error_tool_result, make_rejected_tool_result}
use yac.Service.Tools.{
  ToolPrep, ToolPrepFailure, prepare_one_tool_call, plan_mode_permission_error, yield_to,
  apply_approved_plan_exit, Gate, aborted, through, waiting, maybe_await_approval,
}
use yac.Mcp.Naming.{is_mcp_tool_name}

-- What a step of the loop over the requested tools leaves: the next iteration, a return, or a
-- worker that still waits or that an exception ended.
pub data Step : Type 0 where
  go_on : Service → Step
  leave : Service → Step
  stuck : Step

abbrev pub and_then : Step → (Service → Step) → Step
and_then stuck next = stuck
and_then (leave s) next = leave s
and_then (go_on s) next = next s

-- The id of the card that was streamed for a call.
unfoldable pub streamed_card : List (String × ℕ) → String → Option ℕ
streamed_card [] k = none
streamed_card ((j, i) ∷ m) k = if str_eq j k then some i else streamed_card m k

unfoldable pub failed_prep_result : Env → PreparedToolCall → ToolPrepFailure → ToolExecutionResult
failed_prep_result env call failure =
    let result = make_error_tool_result env call.preview failure.error in
    if str_eq failure.result_json ""
    then result
    else record result { result_json = failure.result_json }

-- The call is handed to what runs it: this is recorded.
abbrev pub note_executed : Service → PreparedToolCall → AgentMode → Service
note_executed s call mode = record s { executed = s.executed ++ (call, mode) ∷ [] }

-- A running background sub-agent keeps its card active.
unfoldable pub done_status : ToolExecutionResult → ChatMessageStatus
done_status result =
    let plain_status =
      if result.is_error then ChatMessageStatus.error else ChatMessageStatus.complete in
    elim result.block [
      | ToolCallBlock.sub_agent c ↦ elim c.status [
        | SubAgentStatus.running ↦
            if result.is_error then plain_status else ChatMessageStatus.active
        | _ ↦ plain_status
      ]
      | _ ↦ plain_status
    ]

module _ (env : Env) (others : ℕ → List Call) where
  -- A `plan_exit` whose card is of another kind throws.
  unfoldable pub exit_by_card : ToolCallBlock → Service → Option (ToolExecutionResult × Service)
  exit_by_card (ToolCallBlock.plan_exit c) s = some (apply_approved_plan_exit env others s c)
  exit_by_card _ s = none

  unfoldable pub mcp_outcome : PreparedToolCall → Ran → ToolExecutionResult
  mcp_outcome call (returned result) = result
  mcp_outcome call (threw what) = make_error_tool_result env call.preview what

  -- The last part of `ExecuteOneToolCall`.
  unfoldable pub dispatch :
      Service → PreparedToolCall → AgentMode → Bool → Option (ToolExecutionResult × Service)
  dispatch s call mode is_mcp_tool =
      let s1 = note_executed s call mode in
      if str_eq call.request.name "plan_exit"
      then exit_by_card call.preview s1
      else if is_mcp_tool
      then some (mcp_outcome call (env.execute_mcp call (stop_requested s)), s1)
      else some (env.execute_built_in call (stop_requested s), s1)

  -- The second check of the mode.
  unfoldable pub run_permitted :
      Option String
      → Service
      → PreparedToolCall
      → AgentMode
      → Bool
      → Option (ToolExecutionResult × Service)
  run_permitted (some error) s call mode is_mcp_tool =
      some (make_error_tool_result env call.preview error, s)
  run_permitted none s call mode is_mcp_tool = dispatch s call mode is_mcp_tool

  unfoldable pub execute_one_tool_call :
      Service
      → PreparedToolCall
      → Option ToolPrepFailure
      → Bool
      → Bool
      → Option (ToolExecutionResult × Service)
  execute_one_tool_call s call (some failure) approved is_mcp_tool =
      some (failed_prep_result env call failure, s)
  execute_one_tool_call s call none false is_mcp_tool = some (make_rejected_tool_result call, s)
  execute_one_tool_call s call none true is_mcp_tool =
      let s1 = yield_to env others s in
      let mode = s1.config.agent_mode in
      run_permitted (plan_mode_permission_error mode call.request) s1 call mode is_mcp_tool

  unfoldable pub done_event : ℕ → ToolCallRequest → ToolExecutionResult → ChatEvent
  done_event card request result = ChatEvent.tool_call_done (record {
    message_id = card;
    role = ChatRole.tool;
    tool_call_id = request.id;
    tool_name = request.name;
    tool_call = result.block;
    status = done_status result;
  })

  unfoldable pub check_stop : Service → Step
  check_stop s = if stop_requested s then leave s else go_on s

  -- The result goes into the history if the generation is still the worker's.
  unfoldable pub settle : Service → ℕ → ToolCallRequest → ToolExecutionResult → ℕ → Step
  settle s card request result generation =
      if s.generation == generation
      then check_stop (
          yield_to env others
            (record s { history = append_tool_result s.history card request result }))
      else leave s

  -- The part of an iteration after the call has its result.
  unfoldable pub report : Service → ℕ → ToolCallRequest → ToolExecutionResult → ℕ → Step
  report s card request result generation =
      settle (yield_to env others (emit (yield_to env others s) (done_event card request result)))
        card request result generation

  unfoldable pub report_outcome :
      ℕ → ToolCallRequest → ℕ → Option (ToolExecutionResult × Service) → Step
  report_outcome card request generation none = stuck
  report_outcome card request generation (some (result, s)) =
      report s card request result generation

  unfoldable pub execute_and_report :
      Service → ℕ → ToolCallRequest → PreparedToolCall → Option ToolPrepFailure → Bool → ℕ → Step
  execute_and_report s card request call failure approved generation =
      report_outcome card request generation
        (execute_one_tool_call s call failure approved (is_mcp_tool_name request.name))

  unfoldable pub card_or_next : Option ℕ → Service → ℕ × Service
  card_or_next (some i) s = (i, s)
  card_or_next none s = next_message_id s

  unfoldable pub card_id : Service → List (String × ℕ) → ToolCallRequest → ℕ × Service
  card_id s cards request = card_or_next (streamed_card cards request.id) s

  unfoldable pub started_event : ℕ → ToolCallRequest → PreparedToolCall → ChatEvent
  started_event card request call = ChatEvent.tool_call_started (record {
    message_id = card;
    role = ChatRole.tool;
    tool_call_id = request.id;
    tool_name = request.name;
    tool_call = call.preview;
    status = ChatMessageStatus.active;
  })

  unfoldable pub after_gate : ℕ → ToolCallRequest → ℕ → Gate → Step
  after_gate card request generation waiting = stuck
  after_gate card request generation (aborted s) = leave s
  after_gate card request generation (through approved call s) =
      execute_and_report s card request call none approved generation

  -- The part of an iteration after the card was shown.
  unfoldable pub gate_and_execute :
      ℕ → Service → ℕ → ToolCallRequest → PreparedToolCall → Option ToolPrepFailure → ℕ → Step
  gate_and_execute fuel s card request call (some failure) generation =
      execute_and_report s card request call (some failure) true generation
  gate_and_execute fuel s card request call none generation =
      if call.requires_approval
      then after_gate card request generation
          (maybe_await_approval env others fuel s call request card)
      else execute_and_report s card request call none true generation

  unfoldable pub run_one : ℕ → Service → List (String × ℕ) → ToolCallRequest → ℕ → Step
  run_one fuel s cards request generation =
      let (card, s1) = card_id (yield_to env others s) cards request in
      let s2 = yield_to env others s1 in
      let prep = prepare_one_tool_call env s2.config.agent_mode request in
      let call = record prep.call { card_message_id = card } in
      let s3 = emit (yield_to env others s2) (started_event card request call) in
      gate_and_execute fuel s3 card request call prep.failure generation

  -- `Run`: whether the worker got through, and its state.
  unfoldable pub run_tools : ℕ → Service → List (String × ℕ) → List ToolCallRequest → ℕ → Step
  run_tools fuel s cards [] generation = go_on s
  run_tools fuel s cards (request ∷ rest) generation =
      and_then (run_one fuel s cards request generation)
        (λ s1. run_tools fuel s1 cards rest generation)
