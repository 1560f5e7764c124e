-- ===== src/Service/Rounds/Execution.antt =====
-- `ExecuteOneToolCall` of src/chat/tool_round_runner.cpp and the report of its result.
use Prim.Native.String.{String}
use text.Mathlib.Text.{◌==◌ as str_eq}
use yac.Common.{
  ℕ, ◌≡◌, refl, inl, inr, Bool, true, false, Option, none, some, List, ◌==◌, Bool-cases,
}
use yac.Chat.Message.{ToolCallRequest}
use yac.Chat.Mode.{AgentMode}
use yac.Chat.Block.{ToolCallBlock, ToolExecutionResult, PlanExitCall}
use yac.Service.State.{Service, Env, PreparedToolCall, stop_requested}
use yac.Service.Calls.{Call}
use yac.Service.Quiet.Calls.{yield-Quiet}
use yac.Service.Tools.{
  ToolPrepFailure, plan_mode_permission_error, yield_to, exit_plan, apply_approved_plan_exit,
  plan_target, leave_plan,
}
use yac.Service.Rounds.{
  exit_by_card, run_permitted, report_outcome, dispatch, execute_one_tool_call, report,
  note_executed, check_stop, settle,
}
use yac.Service.Rounds.Record.{
  Cleared, Permitted, error-Permitted, Justified, Sound-snoc, Cleared-Quiet, Holds, yield-Justified,
}

abbrev Ended : Option (ToolExecutionResult × Service) → Type 0
Ended none = Unit {0}
Ended (some (result, s)) = Justified s

module _ (env : Env) (others : ℕ → List Call) where
  pub exit_plan-Justified :
      (o : Option String) (s : Service) (c : PlanExitCall)
      → Justified s
      → Justified (exit_plan env others o s c).1
  unfolding exit_plan leave_plan
  exit_plan-Justified none s c h = h
  exit_plan-Justified (some path) s c h = elim (Bool-cases (env.write_approved_plan path c.plan)) [
    | inl wrote ↦ rw wrote (yield-Justified env others _ (yield-Justified env others s h))
    | inr failed ↦ rw failed (yield-Justified env others s h)
  ]

  pub exit_by_card-Ended :
      (b : ToolCallBlock) (s : Service) → Justified s → Ended (exit_by_card env others b s)
  unfolding exit_by_card apply_approved_plan_exit
  exit_by_card-Ended (ToolCallBlock.plan_exit c) s h =
      exit_plan-Justified (plan_target env others (yield_to env others s)) _ c
        (yield-Justified env others s h)
  exit_by_card-Ended _ s h = tt

  pub dispatch-Ended :
      (s : Service) (call : PreparedToolCall) (mode : AgentMode) (is_mcp_tool : Bool)
      → Justified s
      → Cleared s.resolutions call
      → Permitted mode call.request.name
      → Ended (dispatch env others s call mode is_mcp_tool)
  unfolding dispatch
  dispatch-Ended s call mode is_mcp_tool h c m =
      let ran = Sound-snoc s.resolutions s.executed call mode h c m in
      elim (Bool-cases (str_eq call.request.name "plan_exit")) [
        | inl exit ↦ rw exit (exit_by_card-Ended call.preview (note_executed s call mode) ran)
        | inr other ↦ elim (Bool-cases is_mcp_tool) [
          | inl mcp ↦ rw (other, mcp) ran
          | inr own ↦ rw (other, own) ran
        ]
      ]

  pub run_permitted-Ended :
      (o : Option String) (s : Service) (call : PreparedToolCall) (mode : AgentMode)
      (is_mcp_tool : Bool)
      → Justified s
      → Cleared s.resolutions call
      → plan_mode_permission_error mode call.request ≡ o
      → Ended (run_permitted env others o s call mode is_mcp_tool)
  unfolding run_permitted
  run_permitted-Ended (some error) s call mode is_mcp_tool h c m = h
  run_permitted-Ended none s call mode is_mcp_tool h c m =
      dispatch-Ended s call mode is_mcp_tool h c (error-Permitted mode call.request m)

  pub execute-Ended :
      (s : Service) (call : PreparedToolCall) (failure : Option ToolPrepFailure)
      (approved is_mcp_tool : Bool)
      → Justified s
      → (failure ≡ none → approved ≡ true → Cleared s.resolutions call)
      → Ended (execute_one_tool_call env others s call failure approved is_mcp_tool)
  unfolding execute_one_tool_call
  execute-Ended s call (some failure) approved is_mcp_tool h c = h
  execute-Ended s call none false is_mcp_tool h c = h
  execute-Ended s call none true is_mcp_tool h c =
      run_permitted-Ended _ (yield_to env others s) call _ is_mcp_tool
        (yield-Justified env others s h)
        (Cleared-Quiet call (yield-Quiet env others s) (c refl refl)) refl

  pub check_stop-Holds : (s : Service) → Justified s → Holds (check_stop env others s)
  unfolding check_stop
  check_stop-Holds s h = elim (Bool-cases (stop_requested s)) [
    | inl stop ↦ rw stop h
    | inr on ↦ rw on h
  ]

  pub settle-Holds :
      (s : Service) (card : ℕ) (r : ToolCallRequest) (result : ToolExecutionResult) (g : ℕ)
      → Justified s
      → Holds (settle env others s card r result g)
  unfolding settle
  settle-Holds s card r result g h = elim (Bool-cases (s.generation == g)) [
    | inl mine ↦ rw mine (check_stop-Holds _ (yield-Justified env others _ h))
    | inr stale ↦ rw stale h
  ]

  pub report-Holds :
      (s : Service) (card : ℕ) (r : ToolCallRequest) (result : ToolExecutionResult) (g : ℕ)
      → Justified s
      → Holds (report env others s card r result g)
  unfolding report
  report-Holds s card r result g h =
      settle-Holds _ card r result g (yield-Justified env others _ (yield-Justified env others s h))

  pub outcome-Holds :
      (card : ℕ) (r : ToolCallRequest) (g : ℕ) (o : Option (ToolExecutionResult × Service))
      → Ended o
      → Holds (report_outcome env others card r g o)
  unfolding report_outcome
  outcome-Holds card r g none h = tt
  outcome-Holds card r g (some (result, s)) h = report-Holds s card r result g h
