-- ===== src/Service/Rounds/Keeps.antt =====
-- What the steps of a tool round leave of the history: only the report of a result changes the
-- worker's part of it.
use Prim.Native.String.{String}
use text.Mathlib.Text.{◌==◌ as str_eq}
use yac.Common.{
  ℕ, zero, suc, ◌≡◌, refl, ap, ◌∙◌, ◌≤◌, ◌⊎◌, inl, inr, Bool, true, false, Option, none, some, List,
  [], arith, Bool-cases,
}
use yac.Chat.Message.{ToolCallRequest}
use yac.Chat.Mode.{AgentMode}
use yac.Chat.Block.{ToolCallBlock, ToolExecutionResult, PlanExitCall}
use yac.Approvals.{Approvals, request_approval, wait_ready}
use yac.Chat.Event.{ChatEvent}
use yac.Service.State.{Service, Env, PreparedToolCall, stop_requested, emit}
use yac.Service.Calls.{Call}
use yac.Service.Quiet.{
  finished_of, finished_ids, finished_ids-quiet, Quiet, worker_part, wiped_trans,
}
use yac.Service.Quiet.Calls.{yield-Quiet}
use yac.Service.Tools.{
  ToolPrepFailure, yield_to, take_decision, await_decision, decided_gate, exit_plan, ask, Gate,
  aborted, through, waiting, maybe_await_approval, apply_approved_plan_exit, plan_target,
  leave_plan,
}
use yac.Service.Rounds.{
  exit_by_card, run_permitted, dispatch, execute_one_tool_call, note_executed, card_or_next,
  card_id, streamed_card,
}

-- While a prompt is active: the worker's part of the history stays as long as the generation does,
-- and is otherwise at most wiped out. No event finishes a message.
pub record Keeps (s t : Service) : Type 0 where
  pub active : t.active ≡ s.active
  pub generation : s.generation ≤ t.generation
  pub finished : finished_ids t.log ≡ finished_ids s.log
  pub kept :
      s.active ≡ true → t.generation ≡ s.generation → worker_part t.history ≡ worker_part s.history
  pub wiped :
      s.active ≡ true
      → (worker_part t.history ≡ worker_part s.history) ⊎ (worker_part t.history ≡ [])

pub Keeps-of_Quiet : {s t : Service} → Quiet s t → Keeps s t
Keeps-of_Quiet q = record {
  active = q.active;
  generation = q.generation;
  finished = q.finished;
  kept = q.kept;
  wiped = q.wiped;
}

pub Keeps-trans : {s t u : Service} → Keeps s t → Keeps t u → Keeps s u
Keeps-trans p q = record {
  active = q.active ∙ p.active;
  generation = omega (arith, p.generation, q.generation);
  finished = q.finished ∙ p.finished;
  kept = λ a e.
      q.kept (p.active ∙ a) (omega (arith, e, p.generation, q.generation))
      ∙ p.kept a (omega (arith, e, p.generation, q.generation));
  wiped = λ a. wiped_trans (p.wiped a) (q.wiped (p.active ∙ a));
}

-- A step that changes none of these.
pub Keeps-same :
    (s t : Service)
    → t.active ≡ s.active
    → t.generation ≡ s.generation
    → t.history ≡ s.history
    → finished_ids t.log ≡ finished_ids s.log
    → Keeps s t
Keeps-same s t a g h l = record {
  active = a;
  generation = omega (arith, g);
  finished = l;
  kept = λ _ _. ap worker_part h;
  wiped = λ _. inl (ap worker_part h);
}

abbrev pub KeepsIn : Service → Option (ToolExecutionResult × Service) → Type 0
KeepsIn s none = Unit {0}
KeepsIn s (some (result, t)) = Keeps s t

abbrev KeepsDecided : Service → Option (Bool × Service) → Type 0
KeepsDecided s none = Unit {0}
KeepsDecided s (some (b, t)) = Keeps s t

abbrev pub KeepsGate : Service → Gate → Type 0
KeepsGate s waiting = Unit {0}
KeepsGate s (aborted t) = Keeps s t
KeepsGate s (through b call t) = Keeps s t

module _ (env : Env) (others : ℕ → List Call) where
  pub yield-Keeps : (s t : Service) → Keeps s t → Keeps s (yield_to env others t)
  yield-Keeps s t k = Keeps-trans k (Keeps-of_Quiet (yield-Quiet env others t))

  await-Keeps :
      (fuel : ℕ) (s t : Service) (k : String)
      → Keeps s t
      → KeepsDecided s (await_decision env others fuel t k)
  unfolding await_decision take_decision
  await-Keeps zero s t k h = tt
  await-Keeps (suc fuel) s t k h =
      let t1 = yield_to env others t in
      let h1 = yield-Keeps s t h in
      elim (Bool-cases (wait_ready t1.approvals k (stop_requested t1))) [
        | inl ready ↦ rw ready (Keeps-trans h1 (Keeps-same t1 _ refl refl refl refl))
        | inr more ↦ rw more (await-Keeps fuel s t1 k h1)
      ]

  decided-Keeps :
      (s : Service) (call : PreparedToolCall) (o : Option (Bool × Service))
      → KeepsDecided s o
      → KeepsGate s (decided_gate call o)
  unfolding decided_gate
  decided-Keeps s call none d = tt
  decided-Keeps s call (some (b, t)) d = d

  -- The request and its event.
  asked_Keeps :
      (s t : Service) (a : Approvals) (e : ChatEvent)
      → Keeps s t
      → finished_of e ≡ []
      → Keeps s (emit (yield_to env others (record (yield_to env others t) { approvals = a })) e)
  asked_Keeps s t a e h quiet =
      let t1 = yield_to env others t in
      let h1 = Keeps-trans (yield-Keeps s t h) (Keeps-same t1 _ refl refl refl refl) in
      Keeps-trans (yield-Keeps s (record t1 { approvals = a }) h1)
        (Keeps-same _ _ refl refl refl (finished_ids-quiet _ _ quiet))

  pub gate-Keeps :
      (fuel : ℕ) (s t : Service) (call : PreparedToolCall) (r : ToolCallRequest) (card : ℕ)
      → Keeps s t
      → KeepsGate s (maybe_await_approval env others fuel t call r card)
  unfolding maybe_await_approval ask
  gate-Keeps fuel s t call r card h =
      let t1 = yield_to env others t in
      let h1 = yield-Keeps s t h in
      let (call', t2) = ask env others t1 call r card in
      let h2 : Keeps s t2 =
        asked_Keeps s t1
          (request_approval (yield_to env others t1).approvals r.id r.name r.arguments_json).1 _ h1
          refl in
      elim (Bool-cases (stop_requested t1)) [
        | inl stop ↦ rw stop h1
        | inr on ↦ elim (Bool-cases (str_eq r.name "ask_user")) [
          | inl user ↦ rw (on, user) h2
          | inr tool ↦
              rw (on, tool) (decided-Keeps s call' _ (await-Keeps fuel s t2 call'.approval_id h2))
        ]
      ]

  exit_plan-Keeps :
      (o : Option String) (s t : Service) (c : PlanExitCall)
      → Keeps s t
      → Keeps s (exit_plan env others o t c).1
  unfolding exit_plan leave_plan
  exit_plan-Keeps none s t c h = h
  exit_plan-Keeps (some path) s t c h =
      let h1 = yield-Keeps s t h in
      elim (Bool-cases (env.write_approved_plan path c.plan)) [
        | inl wrote ↦ rw wrote (
            Keeps-trans (yield-Keeps s _ (Keeps-trans h1 (Keeps-same _ _ refl refl refl refl)))
              (Keeps-same _ _ refl refl refl (finished_ids-quiet _ _ refl)))
        | inr failed ↦ rw failed h1
      ]

  exit_by_card-Keeps :
      (b : ToolCallBlock) (s t : Service) → Keeps s t → KeepsIn s (exit_by_card env others b t)
  unfolding exit_by_card apply_approved_plan_exit
  exit_by_card-Keeps (ToolCallBlock.plan_exit c) s t h =
      exit_plan-Keeps (plan_target env others (yield_to env others t)) s _ c (yield-Keeps s t h)
  exit_by_card-Keeps _ s t h = tt

  dispatch-Keeps :
      (s t : Service) (call : PreparedToolCall) (mode : AgentMode) (is_mcp_tool : Bool)
      → Keeps s t
      → KeepsIn s (dispatch env others t call mode is_mcp_tool)
  unfolding dispatch
  dispatch-Keeps s t call mode is_mcp_tool h =
      let t1 = note_executed t call mode in
      let h1 : Keeps s t1 = Keeps-trans h (Keeps-same t t1 refl refl refl refl) in
      elim (Bool-cases (str_eq call.request.name "plan_exit")) [
        | inl exit ↦ rw exit (exit_by_card-Keeps call.preview s t1 h1)
        | inr other ↦ elim (Bool-cases is_mcp_tool) [
          | inl mcp ↦ rw (other, mcp) h1
          | inr own ↦ rw (other, own) h1
        ]
      ]

  run_permitted-Keeps :
      (o : Option String) (s t : Service) (call : PreparedToolCall) (mode : AgentMode)
      (is_mcp_tool : Bool)
      → Keeps s t
      → KeepsIn s (run_permitted env others o t call mode is_mcp_tool)
  unfolding run_permitted
  run_permitted-Keeps (some error) s t call mode is_mcp_tool h = h
  run_permitted-Keeps none s t call mode is_mcp_tool h = dispatch-Keeps s t call mode is_mcp_tool h

  pub execute-Keeps :
      (s t : Service) (call : PreparedToolCall) (failure : Option ToolPrepFailure)
      (approved is_mcp_tool : Bool)
      → Keeps s t
      → KeepsIn s (execute_one_tool_call env others t call failure approved is_mcp_tool)
  unfolding execute_one_tool_call
  execute-Keeps s t call (some failure) approved is_mcp_tool h = h
  execute-Keeps s t call none false is_mcp_tool h = h
  execute-Keeps s t call none true is_mcp_tool h =
      run_permitted-Keeps _ s (yield_to env others t) call _ is_mcp_tool (yield-Keeps s t h)

  card_or_next-Keeps : (o : Option ℕ) (s : Service) → Keeps s (card_or_next env others o s).1
  unfolding card_or_next
  card_or_next-Keeps (some i) s = Keeps-same s s refl refl refl refl
  card_or_next-Keeps none s = Keeps-same s _ refl refl refl refl

  pub card-Keeps :
      (s t : Service) (cards : List (String × ℕ)) (r : ToolCallRequest)
      → Keeps s t
      → Keeps s (card_id env others t cards r).1
  unfolding card_id
  card-Keeps s t cards r h = Keeps-trans h (card_or_next-Keeps (streamed_card cards r.id) t)
