-- ===== src/Service/Rounds/Results.antt =====
-- The tool results that `ToolRoundRunner::Run` of src/chat/tool_round_runner.cpp puts into the
-- history.
use Prim.Native.String.{String}
use yac.Common.{
  ℕ, ◌≡◌, refl, ◌⊎◌, inl, inr, Bool, true, false, Option, none, some, List, [], ◌∷◌, ◌++◌, arith,
  if◌then◌else◌, ◌==◌, Bool-cases,
}
use yac.Chat.Message.{ChatMessage, ChatRole, ToolCallRequest}
use yac.Chat.Block.{ToolExecutionResult}
use yac.History.{append_tool_result}
use yac.Service.State.{Service, Env, PreparedToolCall, stop_requested, emit}
use yac.Service.Calls.{Call}
use yac.Service.Tools.{
  ToolPrepFailure, prepare_one_tool_call, yield_to, Gate, aborted, through, waiting,
}
use yac.Service.Quiet.{finished_ids-quiet}
use yac.Service.Rounds.{
  started_event, Step, go_on, leave, stuck, check_stop, settle, report, report_outcome,
  execute_and_report, after_gate, gate_and_execute, run_one, done_event,
}
use yac.Service.Rounds.Keeps.{
  Keeps, Keeps-same, Keeps-trans, KeepsIn, KeepsGate, yield-Keeps, execute-Keeps, gate-Keeps,
  card-Keeps,
}

-- A tool message that answers a request.
abbrev pub Answer : ToolCallRequest → ChatMessage → Type 0
Answer r m = (m.role ≡ ChatRole.tool) × (m.tool_call_id ≡ r.id) × (m.tool_name ≡ r.name)

-- The messages answer the requests one by one.
abbrev pub Answers : List ToolCallRequest → List ChatMessage → Type 0
Answers [] [] = Unit {0}
Answers [] (m ∷ ms) = ⊥
Answers (r ∷ rs) [] = ⊥
Answers (r ∷ rs) (m ∷ ms) = Answer r m × Answers rs ms

unfoldable pub append_message : Service → ChatMessage → Service
append_message s m = record s { history = s.history ++ m ∷ [] }

-- `t` comes from `s` by adding one answer to `r`, in the generation `g`.
unfoldable pub Appended : Service → ToolCallRequest → ℕ → Service → Type 0
unfolding append_message
Appended s r g t =
    (u : Service) × (m : ChatMessage) × Keeps s u
    × (u.generation ≡ g)
    × Answer r m
    × Keeps (append_message u m) t

-- What one iteration does to the history.
abbrev pub One : Service → ToolCallRequest → ℕ → Step → Type 0
One s r g (go_on t) = Appended s r g t
One s r g (leave t) = Keeps s t ⊎ Appended s r g t
One s r g stuck = Unit {0}

if-One :
    (b : Bool) (x y : Step) (s : Service) (r : ToolCallRequest) (g : ℕ)
    → One s r g x
    → One s r g y
    → One s r g (if b then x else y)
if-One true x y s r g p q = p
if-One false x y s r g p q = q

result_added :
    (s t : Service) (card : ℕ) (r : ToolCallRequest) (result : ToolExecutionResult) (g : ℕ)
    (next : Service)
    → Keeps s t
    → t.generation ≡ g
    → Keeps (record t { history = append_tool_result t.history card r result }) next
    → Appended s r g next
unfolding Appended append_message append_tool_result
result_added s t card r result g next h mine k = (t, _, h, mine, (refl, refl, refl), k)

module _ (env : Env) (others : ℕ → List Call) where
  settle-One :
      (s t : Service) (card : ℕ) (r : ToolCallRequest) (result : ToolExecutionResult) (g : ℕ)
      → Keeps s t
      → One s r g (settle env others t card r result g)
  unfolding settle check_stop
  settle-One s t card r result g h =
      let u = record t { history = append_tool_result t.history card r result } in
      let next = yield_to env others u in
      let added : t.generation == g ≡ true → Appended s r g next = λ mine.
        result_added s t card r result g next h (ground (arith, mine))
          (yield-Keeps env others u u (Keeps-same u u refl refl refl refl)) in
      elim (Bool-cases (t.generation == g)) [
        | inl mine ↦ rw mine (
            if-One (stop_requested next) (leave next) (go_on next) s r g (inr (added mine))
              (added mine))
        | inr stale ↦ rw stale (inl h)
      ]

  report-One :
      (s t : Service) (card : ℕ) (r : ToolCallRequest) (result : ToolExecutionResult) (g : ℕ)
      → Keeps s t
      → One s r g (report env others t card r result g)
  unfolding report done_event
  report-One s t card r result g h =
      let ran = yield_to env others t in
      let shown = emit ran (done_event env others card r result) in
      settle-One s _ card r result g (
        yield-Keeps env others s shown (
          Keeps-trans (yield-Keeps env others s t h)
            (Keeps-same ran shown refl refl refl (finished_ids-quiet ran.log _ refl))))

  outcome-One :
      (s : Service) (card : ℕ) (r : ToolCallRequest) (g : ℕ)
      (o : Option (ToolExecutionResult × Service))
      → KeepsIn s o
      → One s r g (report_outcome env others card r g o)
  unfolding report_outcome
  outcome-One s card r g none h = tt
  outcome-One s card r g (some (result, t)) h = report-One s t card r result g h

  execute_and_report-One :
      (s t : Service) (card : ℕ) (r : ToolCallRequest) (call : PreparedToolCall)
      (failure : Option ToolPrepFailure) (approved : Bool) (g : ℕ)
      → Keeps s t
      → One s r g (execute_and_report env others t card r call failure approved g)
  unfolding execute_and_report
  execute_and_report-One s t card r call failure approved g h =
      outcome-One s card r g _ (execute-Keeps env others s t call failure approved _ h)

  after_gate-One :
      (s : Service) (card : ℕ) (r : ToolCallRequest) (g : ℕ) (gate : Gate)
      → KeepsGate s gate
      → One s r g (after_gate env others card r g gate)
  unfolding after_gate
  after_gate-One s card r g waiting h = tt
  after_gate-One s card r g (aborted t) h = inl h
  after_gate-One s card r g (through approved call t) h =
      execute_and_report-One s t card r call none approved g h

  gate_and_execute-One :
      (fuel : ℕ) (s t : Service) (card : ℕ) (r : ToolCallRequest) (call : PreparedToolCall)
      (failure : Option ToolPrepFailure) (g : ℕ)
      → Keeps s t
      → One s r g (gate_and_execute env others fuel t card r call failure g)
  unfolding gate_and_execute
  gate_and_execute-One fuel s t card r call (some failure) g h =
      execute_and_report-One s t card r call (some failure) true g h
  gate_and_execute-One fuel s t card r call none g h =
      if-One call.requires_approval _ _ s r g
        (after_gate-One s card r g _ (gate-Keeps env others fuel s t call r card h))
        (execute_and_report-One s t card r call none true g h)

  pub run_one-One :
      (fuel : ℕ) (s : Service) (cards : List (String × ℕ)) (r : ToolCallRequest) (g : ℕ)
      → One s r g (run_one env others fuel s cards r g)
  unfolding run_one prepare_one_tool_call started_event
  run_one-One fuel s cards r g =
      let start = yield-Keeps env others s s (Keeps-same s s refl refl refl refl) in
      let carded = card-Keeps env others s (yield_to env others s) cards r start in
      let seen = yield-Keeps env others s _ (yield-Keeps env others s _ carded) in
      gate_and_execute-One fuel s _ _ r _ _ g
        (Keeps-trans seen (Keeps-same _ _ refl refl refl (finished_ids-quiet _ _ refl)))
