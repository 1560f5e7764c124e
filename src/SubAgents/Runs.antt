-- ===== src/SubAgents/Runs.antt =====
-- What holds of the sub-agents after any calls, and of the card of a task that the user gives.
use Prim.Native.String.{String}
use Prim.Native.String
use yac.Common.{
  ℕ, suc, ◌≤◌, ◌<◌, ◌≡◌, refl, sym, subst, inl, inr, Bool, true, false, Option, none, some, List,
  [], ◌∷◌, ◌++◌, arith, leb, if◌then◌else◌, length, Bool-cases,
}
use yac.Common.Text.{to_string}
use yac.Chat.Block.{SubAgentMode}
use yac.Chat.Event.{ChatEvent}
use yac.SubAgents.{
  SubAgentSession, SubAgentManager, max_concurrent_sub_agents, change_session, parent_emit,
  make_agent_id, create_session, keep_unfinished, cleanup_finished_sessions, has_key,
  try_store_session, remove_session, is_at_capacity,
}
use yac.SubAgents.Completion.{
  emit_session_completed, deliver_background_result, completion_of, SubAgentCompletion,
  adapt_sub_agent_prompt_event, failed, make_sub_agent_completion_event,
}
use yac.SubAgents.Calls.{
  is_background, start_session, end_foreground, end_background, end_found, end_session,
  spawn_foreground, spawn_background_session, spawn_background, value_or_capacity_error,
  spawn_for_card, settle_card, spawn_background_from_user, cancel_sub_agent, cancel_all_sub_agents,
  watch, emit_adapted, adapted, filtered_emit, user_task_started, capacity_error, Call, act,
  run_calls,
}
use yac.SubAgents.Limits.{
  ValidKeys, keep_unfinished-ValidKeys, erase_key-ValidKeys, suc-ValidKeys, empty-ValidKeys,
  add-ValidKeys, new_key,
}

abbrev pub IsValid : SubAgentManager → Type 0
IsValid m = ValidKeys m.active m.next_agent_id

-- A session that is started has a new id, and finds room; or it does not run.
pub data Start (m : SubAgentManager) : Option String × SubAgentManager → Type 0 where
  runs :
      {after : SubAgentManager}
      → length (keep_unfinished after.sessions m.active) < max_concurrent_sub_agents
      → after.active ≡ make_agent_id m.next_agent_id ∷ keep_unfinished after.sessions m.active
      → after.next_agent_id ≡ suc m.next_agent_id
      → after.emitted ≡ m.emitted
      → Start m (some (make_agent_id m.next_agent_id), after)
  full :
      {after : SubAgentManager}
      → max_concurrent_sub_agents ≤ length after.active
      → after.active ≡ keep_unfinished after.sessions m.active
      → after.next_agent_id ≡ suc m.next_agent_id
      → after.emitted ≡ m.emitted
      → Start m (none, after)

start_session-Start :
    (m : SubAgentManager) (task : String) (mode : SubAgentMode) (card : ℕ) (tool_call_id : String)
    → IsValid m
    → Start m (start_session m task mode card tool_call_id)
unfolding start_session create_session try_store_session cleanup_finished_sessions
start_session-Start m task mode card tool_call_id v =
    let sessions = (create_session m task mode card tool_call_id).1.sessions in
    let kept = keep_unfinished sessions m.active in
    elim (Bool-cases (leb max_concurrent_sub_agents (length kept))) [
      | inl e ↦ rw (e) (full (ground (arith, e)) refl refl refl)
      | inr e ↦
          let fresh = new_key (keep_unfinished-ValidKeys sessions v) in
          rw (e, fresh) (runs (ground (arith, e)) refl refl refl)
    ]

Start-IsValid :
    (m : SubAgentManager) {r : Option String × SubAgentManager}
    → IsValid m
    → Start m r
    → IsValid r.1
Start-IsValid m v (runs {after} room keys next events) =
    subst (λ k. ValidKeys k after.next_agent_id) (sym keys)
      (subst (ValidKeys (make_agent_id m.next_agent_id ∷ keep_unfinished after.sessions m.active))
        (sym next) (add-ValidKeys room (keep_unfinished-ValidKeys after.sessions v)))
Start-IsValid m v (full {after} at keys next events) =
    subst (λ k. ValidKeys k after.next_agent_id) (sym keys)
      (subst (ValidKeys (keep_unfinished after.sessions m.active)) (sym next)
        (suc-ValidKeys (keep_unfinished-ValidKeys after.sessions v)))

value-IsValid :
    (r : Option String × SubAgentManager) → IsValid r.1 → IsValid (value_or_capacity_error r).1
value-IsValid (none, m) v = v
value-IsValid (some id, m) v = v

settle-IsValid :
    (card : ℕ) (task : String) (r : Option String × SubAgentManager)
    → IsValid r.1
    → IsValid (settle_card card task r).1
unfolding parent_emit
settle-IsValid card task (none, m) v = v
settle-IsValid card task (some id, m) v = v

spawn_for_card-IsValid :
    (m : SubAgentManager) (task : String) (o : Option ℕ)
    → IsValid m
    → IsValid (spawn_for_card m task o).1
unfolding parent_emit spawn_background_session
spawn_for_card-IsValid m task none v = v
spawn_for_card-IsValid m task (some card) v =
    let shown =
      parent_emit (record m { next_message_id = some (suc card) }) (user_task_started card task) in
    let tool_call_id = String.◌++◌ "user-task-" (to_string card) in
    settle-IsValid card task (start_session shown task SubAgentMode.background card tool_call_id) (
      Start-IsValid shown v
        (start_session-Start shown task SubAgentMode.background card tool_call_id v))

either-IsValid :
    (b : Bool) (x y : SubAgentManager) → IsValid x → IsValid y → IsValid (if b then x else y)
either-IsValid true x y p q = p
either-IsValid false x y p q = q

deliver-IsValid :
    (m : SubAgentManager) (s : SubAgentSession) (c : SubAgentCompletion)
    → IsValid m
    → IsValid (deliver_background_result m s c)
unfolding deliver_background_result
deliver-IsValid m s c v = either-IsValid m.has_injector _ m v v

end_found-IsValid :
    (m : SubAgentManager) (o : Option SubAgentSession) (threw : Option String)
    → IsValid m
    → IsValid (end_found m o threw)
unfolding end_background end_foreground remove_session change_session emit_session_completed
    parent_emit
end_found-IsValid m none threw v = v
end_found-IsValid m (some s) threw v =
    let completion = completion_of m.timeout_seconds s threw in
    either-IsValid (is_background s.mode) _ _
      (deliver-IsValid (emit_session_completed m s completion) s completion v)
      (erase_key-ValidKeys s.agent_id v)

emit_adapted-IsValid :
    (m : SubAgentManager) (id : String) (e : Option ChatEvent × ℕ)
    → IsValid m
    → IsValid (emit_adapted m id e)
unfolding change_session parent_emit
emit_adapted-IsValid m id (none, count) v = v
emit_adapted-IsValid m id (some event, count) v = v

adapted-IsValid :
    (m : SubAgentManager) (id : String) (o : Option SubAgentSession) (event : ChatEvent)
    → IsValid m
    → IsValid (adapted m id o event)
adapted-IsValid m id none event v = v
adapted-IsValid m id (some s) event v =
    emit_adapted-IsValid m id (adapt_sub_agent_prompt_event s event) v

cancel-IsValid : (m : SubAgentManager) (id : String) → IsValid m → IsValid (cancel_sub_agent m id)
unfolding cancel_sub_agent change_session cleanup_finished_sessions
cancel-IsValid m id v =
    let kept = keep_unfinished m.sessions m.active in
    elim (Bool-cases (has_key kept id)) [
      | inl e ↦ rw (e) (keep_unfinished-ValidKeys m.sessions v)
      | inr e ↦ rw (e) (keep_unfinished-ValidKeys m.sessions v)
    ]

act-IsValid : (m : SubAgentManager) (c : Call) → IsValid m → IsValid (act m c)
unfolding act spawn_foreground spawn_background spawn_background_session spawn_background_from_user
    watch change_session cancel_all_sub_agents is_at_capacity cleanup_finished_sessions end_session
    filtered_emit
act-IsValid m (Call.foreground_starts task card id) v =
    Start-IsValid m v (start_session-Start m task SubAgentMode.foreground card id v)
act-IsValid m (Call.background_starts task card id) v =
    value-IsValid (start_session m task SubAgentMode.background card id)
      (Start-IsValid m v (start_session-Start m task SubAgentMode.background card id v))
act-IsValid m (Call.user_starts task) v = spawn_for_card-IsValid m task m.next_message_id v
act-IsValid m (Call.cancels id) v = cancel-IsValid m id v
act-IsValid m (Call.ticks_watchdog id) v = v
act-IsValid m (Call.parent_stops id) v = v
act-IsValid m Call.cancels_all v = empty-ValidKeys m.next_agent_id
act-IsValid m Call.asks_capacity v = keep_unfinished-ValidKeys m.sessions v
act-IsValid m (Call.ends id history threw) v = end_found-IsValid _ _ threw v
act-IsValid m (Call.emits id event) v = adapted-IsValid _ id _ event v
act-IsValid m (Call.waits time) v = v

-- After any calls, by any threads in any order, no more than four sub-agents are in the map, each
-- under an id of its own.
pub run_calls-IsValid :
    (m : SubAgentManager) (calls : List Call) → IsValid m → IsValid (run_calls m calls)
unfolding run_calls
run_calls-IsValid m [] v = v
run_calls-IsValid m (c ∷ calls) v = run_calls-IsValid (act m c) calls (act-IsValid m c v)

-- What becomes of the card that is shown for a task of the user.
pub data Card (m : SubAgentManager) (task : String) (card : ℕ)
    : String × SubAgentManager → Type 0 where
  running :
      {id : String} {after : SubAgentManager}
      → has_key after.active id ≡ true
      → after.emitted ≡ m.emitted ++ (user_task_started card task ∷ [])
      → Card m task card (id, after)
  refused :
      {after : SubAgentManager}
      → max_concurrent_sub_agents ≤ length after.active
      → after.emitted
        ≡ m.emitted
          ++ (user_task_started card task ∷ [])
          ++ (make_sub_agent_completion_event failed card "" task capacity_error 0 0 ∷ [])
      → Card m task card ("", after)
