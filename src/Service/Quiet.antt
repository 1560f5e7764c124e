-- ===== src/Service/Quiet.antt =====
-- What the calls of other threads leave alone: the worker's records of what it ran and decided, and
-- whether a prompt is active. The generation never falls.
pub mod Calls
use Prim.Native.String.{String}
use yac.Common.{
  ℕ, suc, ◌+◌, ◌≤◌, ◌≡◌, refl, sym, append_assoc, append-nil, ap, ◌⊎◌, ◌∙◌, ◌++◌, List, [], ◌∷◌,
  arith, append-nil, not, ◌&&◌, Bool, true, false, if◌then◌else◌, Option, none, some, inl, inr,
  Bool-cases, Option-cases,
}
use yac.Chat.Config.{ReasoningEffort, ProviderModelSettings}
use yac.Chat.Event.{ChatEvent}
use yac.Service.State.{Service, Env, emit}
use yac.Service.AppState.{save_app_state, delete_app_state, save_runtime_selection}
use yac.Service.Settings.{set_model, set_reasoning_effort}
use yac.Service.Calls.{
  Call, act, run_calls, submit_user_message, inject_sub_agent_continuation, reset_clear, is_plan,
  is_empty, emit_queue_depth, ensure_chat_session_id_locked, ensure_plan_session_locked,
  compact_conversation, cancel_active_response, set_agent_mode, resolve_approval, answer_user,
  reset_signal,
}
use yac.Chat.Message.{ChatMessage, ChatRole, ChatMessageStatus, plain}
use yac.Chat.Mode.{AgentMode}
use yac.Service.Tools.{yield_to}

-- A message that only the worker writes: an answer, a tool result, or a prompt that became active.
abbrev pub by_worker : ChatMessage → Bool
by_worker m = elim m.role [
  | ChatRole.assistant ↦ true
  | ChatRole.tool ↦ true
  | _ ↦ elim m.status [ ChatMessageStatus.active ↦ true | _ ↦ false ]
]

unfoldable pub worker_part : List ChatMessage → List ChatMessage
worker_part [] = []
worker_part (m ∷ ms) = if by_worker m then m ∷ worker_part ms else worker_part ms

pub worker_part-append :
    (xs ys : List ChatMessage) → worker_part (xs ++ ys) ≡ worker_part xs ++ worker_part ys
unfolding worker_part
worker_part-append [] ys = refl
worker_part-append (m ∷ ms) ys = ground (arith, worker_part-append ms ys)

abbrev pub finished_of : ChatEvent → List ℕ
finished_of (ChatEvent.finished e) = e.message_id ∷ []
finished_of _ = []

-- The messages whose `FinishedEvent` is in a log.
unfoldable pub finished_ids : List ChatEvent → List ℕ
finished_ids [] = []
finished_ids (e ∷ es) = finished_of e ++ finished_ids es

pub finished_ids-append :
    (xs ys : List ChatEvent) → finished_ids (xs ++ ys) ≡ finished_ids xs ++ finished_ids ys
unfolding finished_ids
finished_ids-append [] ys = refl
finished_ids-append (e ∷ es) ys =
    ap (finished_of e ++◌) (finished_ids-append es ys)
    ∙ sym (append_assoc (finished_of e) (finished_ids es) (finished_ids ys))

pub finished_ids-quiet :
    (log : List ChatEvent) (e : ChatEvent)
    → finished_of e ≡ []
    → finished_ids (log ++ e ∷ []) ≡ finished_ids log
unfolding finished_ids
finished_ids-quiet log e none_of =
    finished_ids-append log (e ∷ []) ∙ rw none_of (append-nil (finished_ids log))

-- `kept` and `wiped` speak of a service whose worker is busy.
pub record Quiet (s t : Service) : Type 0 where
  pub executed : t.executed ≡ s.executed
  pub resolutions : t.resolutions ≡ s.resolutions
  pub active : t.active ≡ s.active
  pub generation : s.generation ≤ t.generation
  pub finished : finished_ids t.log ≡ finished_ids s.log
  pub kept :
      s.active ≡ true → t.generation ≡ s.generation → worker_part t.history ≡ worker_part s.history
  pub wiped :
      s.active ≡ true
      → (worker_part t.history ≡ worker_part s.history) ⊎ (worker_part t.history ≡ [])

-- What a step leaves alone that other threads take and that keeps the history.
pub record Steady (s t : Service) : Type 0 where
  pub executed : t.executed ≡ s.executed
  pub resolutions : t.resolutions ≡ s.resolutions
  pub active : t.active ≡ s.active
  pub generation : s.generation ≤ t.generation
  pub finished : finished_ids t.log ≡ finished_ids s.log
  pub history : t.history ≡ s.history

pub Quiet-of_Steady : {s t : Service} → Steady s t → Quiet s t
Quiet-of_Steady h = record {
  executed = h.executed;
  resolutions = h.resolutions;
  active = h.active;
  generation = h.generation;
  finished = h.finished;
  kept = λ _ _. ap worker_part h.history;
  wiped = λ _. inl (ap worker_part h.history);
}

pub Steady-trans : {s t u : Service} → Steady s t → Steady t u → Steady s u
Steady-trans p q = record {
  executed = q.executed ∙ p.executed;
  resolutions = q.resolutions ∙ p.resolutions;
  active = q.active ∙ p.active;
  generation = omega arith;
  finished = q.finished ∙ p.finished;
  history = q.history ∙ p.history;
}

pub Quiet-refl : (s : Service) → Quiet s s
Quiet-refl s = record {
  executed = refl;
  resolutions = refl;
  active = refl;
  generation = omega arith;
  finished = refl;
  kept = λ _ _. refl;
  wiped = λ _. inl refl;
}

pub wiped_trans :
    {a b c : List ChatMessage} → (b ≡ a) ⊎ (b ≡ []) → (c ≡ b) ⊎ (c ≡ []) → (c ≡ a) ⊎ (c ≡ [])
wiped_trans (inl p) (inl q) = inl (q ∙ p)
wiped_trans (inr p) (inl q) = inr (q ∙ p)
wiped_trans p (inr q) = inr q

pub Quiet-trans : {s t u : Service} → Quiet s t → Quiet t u → Quiet s u
Quiet-trans p q = record {
  executed = q.executed ∙ p.executed;
  resolutions = q.resolutions ∙ p.resolutions;
  active = q.active ∙ p.active;
  generation = omega (arith, p.generation, q.generation);
  finished = q.finished ∙ p.finished;
  kept = λ a e.
      q.kept (p.active ∙ a) (omega (arith, e, p.generation, q.generation))
      ∙ p.kept a (omega (arith, e, p.generation, q.generation));
  wiped = λ a. wiped_trans (p.wiped a) (q.wiped (p.active ∙ a));
}

-- An event that finishes nothing.
pub emit-Steady : (s : Service) (e : ChatEvent) → finished_of e ≡ [] → Steady s (emit s e)
emit-Steady s e none_of = record {
  executed = refl;
  resolutions = refl;
  active = refl;
  generation = omega arith;
  finished = finished_ids-quiet s.log e none_of;
  history = refl;
}
