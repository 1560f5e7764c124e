-- ===== src/Service/Quiet/Calls.antt =====
-- Each call of another thread, and any sequence of them, between two steps of the worker of
-- src/chat/chat_service.cpp.
use Prim.Native.String.{String}
use yac.Common.{
  ℕ, suc, ◌≡◌, refl, ◌∙◌, ◌++◌, List, [], ◌∷◌, arith, append-nil, not, ◌&&◌, Bool, true, false,
  if◌then◌else◌, Option, none, some, inl, inr, Bool-cases,
}
use yac.Chat.Config.{ReasoningEffort, ProviderModelSettings}
use yac.Service.State.{Service, Env}
use yac.Service.AppState.{save_app_state, delete_app_state, save_runtime_selection}
use yac.Service.Settings.{set_model, set_reasoning_effort}
use yac.Service.Calls.{
  Call, act, run_calls, submit_user_message, inject_sub_agent_continuation, reset_clear, is_plan,
  is_empty, emit_queue_depth, ensure_chat_session_id_locked, ensure_plan_session_locked,
  compact_conversation, cancel_active_response, set_agent_mode, resolve_approval, answer_user,
  reset_signal,
}
use yac.Chat.Message.{ChatMessage, ChatRole, ChatMessageStatus, plain}
use yac.Chat.Mode.{AgentMode}
use yac.Service.Tools.{yield_to}
use yac.Common.{◌||◌}
use text.Mathlib.Text.{◌==◌}
use yac.Service.Settings.{model_changed_event}
use yac.Service.Calls.{queued_event, same_mode}
use yac.Service.State.{PendingPrompt}
use yac.Service.Quiet.{emit-Steady, finished_ids-quiet}
use yac.Service.Quiet.{
  Quiet, Steady, worker_part, worker_part-append, Quiet-of_Steady, Steady-trans, Quiet-refl,
  Quiet-trans,
}

save-Steady : (s : Service) (k v : String) → Steady s (save_app_state s k v)
unfolding save_app_state
save-Steady s k v = ground arith

delete-Steady : (s : Service) (k : String) → Steady s (delete_app_state s k)
unfolding delete_app_state
delete-Steady s k = ground arith

selection-Steady :
    (s : Service) (p : String) (q : Option String) (m : String)
    → Steady s (save_runtime_selection s p q m)
unfolding save_runtime_selection
selection-Steady s p (some q) m =
    let a = save-Steady s "last_provider_id" p in
    let b = save-Steady (save_app_state s "last_provider_id" p) "last_profile_id" q in
    Steady-trans (Steady-trans a b) (save-Steady _ "last_model" m)
selection-Steady s p none m =
    let a = save-Steady s "last_provider_id" p in
    let b = delete-Steady (save_app_state s "last_provider_id" p) "last_profile_id" in
    Steady-trans (Steady-trans a b) (save-Steady _ "last_model" m)

if-Steady : (b : Bool) {s t u : Service} → Steady s t → Steady s u → Steady s (if b then t else u)
if-Steady true p q = p
if-Steady false p q = q

unchanged : (s : Service) → Steady s s
unchanged s = ground arith

with_model :
    (s : Service) (m : String) → Steady s (record s { config = record s.config { model = m } })
with_model s m = ground arith

set_model-Steady : (s : Service) (m : String) → Steady s (set_model s m)
unfolding set_model model_changed_event
set_model-Steady s m =
    if-Steady (s.config.model == m) (unchanged s) (
      Steady-trans (Steady-trans (with_model s m) (selection-Steady _ _ _ m))
        (emit-Steady _ _ refl))

with_settings :
    (s : Service) (m : List ProviderModelSettings)
    → Steady s (record s { config = record s.config { model_settings = m } })
with_settings s m = ground arith

set_effort-Steady : (s : Service) (e : Option ReasoningEffort) → Steady s (set_reasoning_effort s e)
unfolding set_reasoning_effort
set_effort-Steady s none = Steady-trans (with_settings s _) (delete-Steady _ _)
set_effort-Steady s (some e) = Steady-trans (with_settings s _) (save-Steady _ _ _)

session-Steady : (env : Env) (s : Service) → Steady s (ensure_chat_session_id_locked env s)
unfolding ensure_chat_session_id_locked
session-Steady env s = ground arith

plan-Steady : (env : Env) (s : Service) (t : String) → Steady s (ensure_plan_session_locked env s t)
unfolding ensure_plan_session_locked
plan-Steady env s t = ground arith

with_pending : (s : Service) (ps : List PendingPrompt) → Steady s (record s { pending = ps })
with_pending s ps = ground arith

submit-Steady : (env : Env) (s : Service) (t : String) → Steady s (submit_user_message env s t).1
unfolding submit_user_message emit_queue_depth queued_event
submit-Steady env s t =
    let s1 = record s { next_id = suc s.next_id } in
    let first : Steady s s1 = ground arith in
    let s2 = ensure_chat_session_id_locked env s1 in
    let second = Steady-trans first (session-Steady env s1) in
    let third =
      if-Steady (is_plan s2.config.agent_mode) (Steady-trans second (plan-Steady env s2 t))
        second in
    let queued = Steady-trans (Steady-trans third (with_pending _ _)) (emit-Steady _ _ refl) in
    Steady-trans queued (emit-Steady _ _ refl)

injected_part :
    (h : List ChatMessage) (i : ℕ) (t : String)
    → worker_part (h ++ plain i ChatRole.user ChatMessageStatus.complete t ∷ []) ≡ worker_part h
unfolding worker_part
injected_part h i t = worker_part-append h _ ∙ append-nil (worker_part h)

with_id : (s : Service) → Steady s (record s { next_id = suc s.next_id })
with_id s = ground arith

inject-Quiet : (s : Service) (t : String) → Quiet s (inject_sub_agent_continuation s t)
unfolding inject_sub_agent_continuation emit_queue_depth queued_event
inject-Quiet s t = elim (Bool-cases (not s.active && is_empty s.pending)) [
  | inl idle ↦
      let queued =
        Steady-trans (Steady-trans (with_id s) (with_pending _ _)) (emit-Steady _ _ refl) in
      rw idle (Quiet-of_Steady (Steady-trans queued (emit-Steady _ _ refl)))
  | inr busy ↦ rw busy (record {
    executed = refl;
    resolutions = refl;
    active = refl;
    generation = omega arith;
    finished = finished_ids-quiet s.log _ refl;
    kept = λ _ _. injected_part s.history s.next_id t;
    wiped = λ _. inl (injected_part s.history s.next_id t);
  })
]

clear-Quiet : (env : Env) (s : Service) → Quiet s (reset_clear env s)
unfolding reset_clear worker_part
clear-Quiet env s = record {
  executed = refl;
  resolutions = refl;
  active = refl;
  generation = omega arith;
  finished = finished_ids-quiet (s.log ++ _ ∷ []) _ refl ∙ finished_ids-quiet s.log _ refl;
  kept = λ _ e. absurd (omega arith);
  wiped = λ _. inr refl;
}

compact-Quiet : (s : Service) (n : ℕ) → Quiet s (compact_conversation s n)
unfolding compact_conversation
compact-Quiet s n = record {
  executed = ground arith;
  resolutions = ground arith;
  active = ground arith;
  generation = ground arith;
  finished = elim (Bool-cases (s.active || not (is_empty s.pending))) [
    | inl at_work ↦ rw at_work refl
    | inr idle ↦ rw idle (finished_ids-quiet s.log _ refl)
  ];
  kept = λ a _. ground arith;
  wiped = λ a. inl (ground arith);
}

cancel-Steady : (s : Service) → Steady s (cancel_active_response s)
unfolding cancel_active_response
cancel-Steady s = ground arith

with_mode :
    (s : Service) (m : AgentMode) (e : Bool)
    → Steady s (record s { config = record s.config { agent_mode = m; has_entered_plan_mode = e } })
with_mode s m e = ground arith

mode-Steady : (s : Service) (m : AgentMode) → Steady s (set_agent_mode s m)
unfolding set_agent_mode
mode-Steady s m =
    let entered = if is_plan m then true else s.config.has_entered_plan_mode in
    if-Steady (same_mode s.config.agent_mode m) (unchanged s)
      (Steady-trans (with_mode s m entered) (emit-Steady _ _ refl))

act-Quiet : (env : Env) (s : Service) (c : Call) → Quiet s (act env s c)
unfolding act resolve_approval answer_user reset_signal
act-Quiet env s (Call.submit t) = Quiet-of_Steady (submit-Steady env s t)
act-Quiet env s (Call.inject t) = inject-Quiet s t
act-Quiet env s (Call.model m) = Quiet-of_Steady (set_model-Steady s m)
act-Quiet env s (Call.effort e) = Quiet-of_Steady (set_effort-Steady s e)
act-Quiet env s Call.cancels = Quiet-of_Steady (cancel-Steady s)
act-Quiet env s (Call.resolve k b) = Quiet-of_Steady (ground arith)
act-Quiet env s (Call.answer k t) = Quiet-of_Steady (ground arith)
act-Quiet env s (Call.mode m) = Quiet-of_Steady (mode-Steady s m)
act-Quiet env s Call.signal_reset = Quiet-of_Steady (ground arith)
act-Quiet env s Call.clear_reset = clear-Quiet env s
act-Quiet env s (Call.compacts n) = compact-Quiet s n

-- Whatever calls other threads make, the records of what ran and of what was decided stay, a prompt
-- stays active or not, and the generation never falls; while a prompt is active, the worker's part
-- of the history stays as long as the generation does, and is otherwise at most wiped out.
pub run_calls-Quiet : (env : Env) (s : Service) (cs : List Call) → Quiet s (run_calls env s cs)
unfolding run_calls
run_calls-Quiet env s [] = Quiet-refl s
run_calls-Quiet env s (c ∷ cs) =
    Quiet-trans (act-Quiet env s c) (run_calls-Quiet env (act env s c) cs)

ticked : (s : Service) → Steady s (record s { clock = suc s.clock })
ticked s = ground arith

pub yield-Quiet :
    (env : Env) (others : ℕ → List Call) (s : Service) → Quiet s (yield_to env others s)
unfolding yield_to
yield-Quiet env others s =
    Quiet-trans (Quiet-of_Steady (ticked s)) (run_calls-Quiet env _ (others s.clock))
