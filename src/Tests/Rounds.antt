-- ===== src/Tests/Rounds.antt =====
-- Rounds of two tool calls, the first of which the user approves.
use yac.Common.{◌≡◌, refl, sym, ap, ◌++◌, true, List, [], ◌∷◌, arith}
use yac.Chat.Message.{ChatMessage, ToolCallRequest}
use yac.Service.State.{Service, Prepared, prepared, refused}
use yac.Service.Calls.{
  run_calls, act, submit_user_message, ensure_chat_session_id_locked, emit_queue_depth,
  queued_event, resolve_approval,
}
use yac.Approvals.{
  resolve_tool_approval, update, find, request_approval, approval_name, emplace, wait_ready,
  wait_take, erase,
}
use yac.Common.Text.{to_string}
use yac.Mcp.Naming.{is_mcp_tool_name}
use yac.History.{append_tool_result}
use yac.Service.Quiet.{worker_part}
use yac.Service.Tools.{
  yield_to, prepare_one_tool_call, plan_mode_permission_error, prepare_permitted, prep_of,
  maybe_await_approval, ask, decided_gate, await_decision, take_decision,
}
use yac.Service.Rounds.{
  Step, go_on, leave, stuck, run_tools, run_one, card_id, card_or_next, streamed_card,
  gate_and_execute, after_gate, execute_and_report, report_outcome, execute_one_tool_call,
  run_permitted, dispatch, mcp_outcome, report, settle, check_stop, done_event, done_status,
  started_event,
}
use yac.Service.Rounds.Record.{KeepsRequest, Holds}
use yac.Service.Rounds.Approval.{run_tools-Justified}
use yac.Service.Rounds.Results.{Answers}
use yac.Service.Rounds.Answers.{run_tools-Answers, run_tools-Stale, Stale}
use yac.Tests.Data.{env, others, busy, requests, request, prepared_call}

abbrev request_of : ToolCallRequest → Prepared → ToolCallRequest
request_of r (prepared c) = c.request
request_of r (refused error json) = r

keeps : KeepsRequest env
keeps = record {
  built_in = λ r p e. sym (ap (request_of r) e);
  mcp = λ r p e. sym (ap (request_of r) e);
}

run_tools-Justified_example : Holds (run_tools env others 5 busy [] requests 3)
run_tools-Justified_example = run_tools-Justified env others keeps 5 busy [] requests 3 tt

abbrev service_of : Step → Service
service_of (go_on s) = s
service_of (leave s) = s
service_of stuck = busy

abbrev done : Service
done = service_of (run_tools env others 5 busy [] requests 3)

run_tools-Stale_example :
    Stale busy (run_tools env others 5 busy [] requests 2)
    × (run_tools env others 5 busy [] requests 2
        ≡ run_tools env others 5 busy [] (request "call-1" "bash" ∷ []) 2)
run_tools-Stale_example = run_tools-Stale env others 5 busy [] _ _ 2 (omega arith) refl

ran : (run_tools env others 5 busy [] requests 3 ≡ go_on done) × (done.generation ≡ 3)
unfolding run_tools run_one card_id card_or_next streamed_card yield_to run_calls act
    submit_user_message ensure_chat_session_id_locked emit_queue_depth queued_event resolve_approval
    resolve_tool_approval update find prepare_one_tool_call plan_mode_permission_error
    prepare_permitted prep_of is_mcp_tool_name gate_and_execute maybe_await_approval ask
    request_approval approval_name to_string emplace decided_gate await_decision wait_ready
    take_decision wait_take erase after_gate execute_and_report report_outcome execute_one_tool_call
    run_permitted dispatch mcp_outcome report settle check_stop append_tool_result done_event
    done_status started_event
ran = (refl, refl)

run_tools-Answers_example :
    (ms : List ChatMessage) × Answers requests ms
    × (worker_part done.history ≡ worker_part busy.history ++ ms)
run_tools-Answers_example =
    run_tools-Answers env others 5 busy done [] requests 3 refl refl ran.1 ran.0

-- The approval `tool-7` is asked for and resolved at the eighth moment.
abbrev asking : Service
asking =
    (ask env others busy (prepared_call true (request "call-1" "bash")) (request "call-1" "bash")
      10).1
