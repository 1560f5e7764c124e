-- ===== src/Tests/SubAgents.antt =====
-- A manager of sub-agents that is asked for one more than it runs.
use yac.Common.{◌≡◌, refl, true, some, List, [], ◌∷◌, length}
use yac.Common.Text.{to_string}
use yac.SubAgents.{
  SubAgentManager, make_agent_id, create_session, try_store_session, cleanup_finished_sessions,
  keep_unfinished, find_session, has_key, parent_emit,
}
use yac.SubAgents.Calls.{
  Call, act, run_calls, spawn_foreground, user_task_started, spawn_background,
  spawn_background_session, start_session, spawn_background_from_user,
}
use yac.SubAgents.Limits.{empty-ValidKeys}
use yac.SubAgents.Runs.{IsValid, run_calls-IsValid}

abbrev idle : SubAgentManager
idle = record {
  timeout_seconds = 300;
  sessions = [];
  active = [];
  next_agent_id = 1;
  has_injector = true;
  next_message_id = some 7;
  now = 0;
  emitted = [];
  injected = [];
}

abbrev five : List Call
five =
    Call.background_starts "a" 1 "t1"
    ∷ Call.background_starts "b" 2 "t2"
    ∷ Call.foreground_starts "c" 3 "t3"
    ∷ Call.user_starts "d"
    ∷ Call.user_starts "e"
    ∷ []

idle-IsValid : IsValid idle
idle-IsValid = empty-ValidKeys 1

run_calls-IsValid_example : IsValid (run_calls idle five)
run_calls-IsValid_example = run_calls-IsValid idle five idle-IsValid

-- Four of the five run.
four_run : length (run_calls idle five).active ≡ 4
unfolding run_calls act spawn_background spawn_background_session spawn_foreground
    spawn_background_from_user start_session create_session try_store_session
    cleanup_finished_sessions keep_unfinished find_session has_key make_agent_id to_string
    parent_emit user_task_started
four_run = refl
