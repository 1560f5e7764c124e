-- ===== src/Service/Rounds/Approval.antt =====
-- Which tool calls `ToolRoundRunner::Run` of src/chat/tool_round_runner.cpp runs: their approvals and
-- the mode.
use Prim.Native.String.{String}
use yac.Common.{
  ℕ, ◌≡◌, refl, inl, Bool, true, false, Option, none, some, List, [], ◌∷◌, if◌then◌else◌,
}
use yac.Chat.Message.{ToolCallRequest}
use yac.Service.State.{Service, Env, PreparedToolCall, Prepared, prepared, refused}
use yac.Service.Calls.{Call}
use yac.Service.Tools.{
  ToolPrepFailure, prep_of, prepare_permitted, prepare_one_tool_call, Gate, aborted, through,
  waiting,
}
use yac.Service.Rounds.{
  Step, go_on, leave, stuck, after_gate, and_then, execute_and_report, card_or_next, card_id,
  gate_and_execute, run_one, run_tools, streamed_card,
}
use yac.Mcp.Naming.{is_mcp_tool_name}
use yac.Service.Rounds.Record.{Cleared, Justified, KeepsRequest, Holds, if-Holds, yield-Justified}
use yac.Service.Rounds.GatePass.{Passed, gate-Passed}
use yac.Service.Rounds.Execution.{outcome-Holds, execute-Ended}

module _ (env : Env) (others : ℕ → List Call) where
  execute_and_report-Holds :
      (s : Service) (card : ℕ) (r : ToolCallRequest) (call : PreparedToolCall)
      (failure : Option ToolPrepFailure) (approved : Bool) (g : ℕ)
      → Justified s
      → (failure ≡ none → approved ≡ true → Cleared s.resolutions call)
      → Holds (execute_and_report env others s card r call failure approved g)
  unfolding execute_and_report
  execute_and_report-Holds s card r call failure approved g h c =
      outcome-Holds env others card r g _ (execute-Ended env others s call failure approved _ h c)

  after_gate-Holds :
      (card : ℕ) (r : ToolCallRequest) (g : ℕ) (gate : Gate)
      → Passed gate
      → Holds (after_gate env others card r g gate)
  unfolding after_gate
  after_gate-Holds card r g waiting h = tt
  after_gate-Holds card r g (aborted s) h = h
  after_gate-Holds card r g (through approved call s) (h, c) =
      execute_and_report-Holds s card r call none approved g h (λ _ e. c e)

  gate_and_execute-Holds :
      (fuel : ℕ) (s : Service) (card : ℕ) (r : ToolCallRequest) (call : PreparedToolCall)
      (failure : Option ToolPrepFailure) (g : ℕ)
      → Justified s
      → (failure ≡ none → call.request ≡ r)
      → Holds (gate_and_execute env others fuel s card r call failure g)
  unfolding gate_and_execute
  gate_and_execute-Holds fuel s card r call (some failure) g h q =
      execute_and_report-Holds s card r call (some failure) true g h (λ e. absurd (cc))
  gate_and_execute-Holds fuel s card r call none g h q =
      if-Holds call.requires_approval _ _
        (λ needed.
          after_gate-Holds card r g _ (gate-Passed env others fuel s call r card h (q refl)))
        (λ free. execute_and_report-Holds s card r call none true g h (λ _ _. inl free))

  prep_of-request :
      (r : ToolCallRequest) (p : Prepared)
      → ((c : PreparedToolCall) → p ≡ prepared c → c.request ≡ r)
      → (prep_of env r p).failure ≡ none
      → (prep_of env r p).call.request ≡ r
  unfolding prep_of
  prep_of-request r (prepared c) k e = k c refl
  prep_of-request r (refused error json) k e = absurd (cc)

  prepare-request :
      KeepsRequest env
      → (o : Option String) (r : ToolCallRequest) → (prepare_permitted env o r).failure ≡ none
      → (prepare_permitted env o r).call.request ≡ r
  unfolding prepare_permitted
  prepare-request keeps (some error) r e = absurd (cc)
  prepare-request keeps none r e = prep_of-request r _ kept e
    where
      by_kind :
          (b : Bool) (c : PreparedToolCall)
          → (if b then env.prepare_mcp r else env.prepare_built_in r) ≡ prepared c
          → c.request ≡ r
      by_kind true c eq = keeps.mcp r c eq
      by_kind false c eq = keeps.built_in r c eq

      kept :
          (c : PreparedToolCall)
          → (if is_mcp_tool_name r.name then env.prepare_mcp r else env.prepare_built_in r)
            ≡ prepared c
          → c.request ≡ r
      kept c eq = by_kind (is_mcp_tool_name r.name) c eq

  card_or_next-Justified :
      (o : Option ℕ) (s : Service) → Justified s → Justified (card_or_next env others o s).1
  unfolding card_or_next
  card_or_next-Justified (some i) s h = h
  card_or_next-Justified none s h = h

  card-Justified :
      (s : Service) (cards : List (String × ℕ)) (r : ToolCallRequest)
      → Justified s
      → Justified (card_id env others s cards r).1
  unfolding card_id
  card-Justified s cards r h = card_or_next-Justified (streamed_card cards r.id) s h

  run_one-Holds :
      KeepsRequest env
      → (fuel : ℕ) (s : Service) (cards : List (String × ℕ)) (r : ToolCallRequest) (g : ℕ)
      → Justified s
      → Holds (run_one env others fuel s cards r g)
  unfolding run_one prepare_one_tool_call
  run_one-Holds keeps fuel s cards r g h =
      gate_and_execute-Holds fuel _ _ r _ _ g
        (yield-Justified env others _ (
          yield-Justified env others _ (card-Justified _ cards r (yield-Justified env others s h))))
        (prepare-request keeps _ r)

  and_then-Holds :
      (x : Step) (next : Service → Step)
      → Holds x
      → ((s : Service) → Justified s → Holds (next s))
      → Holds (and_then x next)
  and_then-Holds stuck next h k = tt
  and_then-Holds (leave s) next h k = h
  and_then-Holds (go_on s) next h k = k s h

  -- If the preparation of a call keeps its request, then a round of tool calls that the worker gets
  -- through or leaves keeps this of all that ran, whatever other threads do in between: no tool call
  -- was run after Plan mode was read just before, unless `IsToolAllowedForMode` allows it there and
  -- `ExcludedToolsForMode` does not name it; and every call that was run either needs no approval, or
  -- is `ask_user`, or was approved by a wait for its own approval id.
  pub run_tools-Justified :
      KeepsRequest env
      → (fuel : ℕ) (s : Service) (cards : List (String × ℕ)) (rs : List ToolCallRequest) (g : ℕ)
      → Justified s
      → Holds (run_tools env others fuel s cards rs g)
  unfolding run_tools
  run_tools-Justified keeps fuel s cards [] g h = h
  run_tools-Justified keeps fuel s cards (r ∷ rs) g h =
      and_then-Holds _ _ (run_one-Holds keeps fuel s cards r g h)
        (λ s1 h1. run_tools-Justified keeps fuel s1 cards rs g h1)
