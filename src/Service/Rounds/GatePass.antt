-- ===== src/Service/Rounds/GatePass.antt =====
-- The gate of src/chat/tool_round_runner.cpp as `ToolRoundRunner::Run` passes it.
use Prim.Native.String.{String}
use text.Mathlib.Text.{◌==◌ as str_eq}
use yac.Common.{
  ℕ, zero, suc, ◌≡◌, sym, subst, inl, inr, Bool, true, Option, none, some, List, [], ◌∷◌, ◌++◌,
  Bool-cases,
}
use yac.Chat.Message.{ToolCallRequest}
use yac.Approvals.{wait_ready}
use yac.Service.State.{Service, Env, PreparedToolCall, stop_requested}
use yac.Service.Calls.{Call}
use yac.Service.Tools.{
  yield_to, take_decision, await_decision, decided_gate, ask, Gate, aborted, through, waiting,
  maybe_await_approval,
}
use yac.Service.Rounds.Record.{In, Cleared, Justified, In-last, Sound-append, yield-Justified}

-- The outcome of the wait for `k`.
abbrev Decided : String → Option (Bool × Service) → Type 0
Decided k none = Unit {0}
Decided k (some (b, s)) = Justified s × (b ≡ true → In (k, true) s.resolutions)

abbrev pub Passed : Gate → Type 0
Passed waiting = Unit {0}
Passed (aborted s) = Justified s
Passed (through b call s) = Justified s × (b ≡ true → Cleared s.resolutions call)

module _ (env : Env) (others : ℕ → List Call) where
  pub take-Decided :
      (s : Service) (k : String) → Justified s → Decided k (some (take_decision env others s k))
  unfolding take_decision
  take-Decided s k h = (
    Sound-append s.resolutions _ s.executed h,
    λ e.
        subst (λ b. In (k, true) (s.resolutions ++ (k, b) ∷ [])) (sym e)
          (In-last (k, true) s.resolutions),
  )

  pub await-Decided :
      (fuel : ℕ) (s : Service) (k : String)
      → Justified s
      → Decided k (await_decision env others fuel s k)
  unfolding await_decision
  await-Decided zero s k h = tt
  await-Decided (suc fuel) s k h =
      let s1 = yield_to env others s in
      let h1 = yield-Justified env others s h in
      elim (Bool-cases (wait_ready s1.approvals k (stop_requested s1))) [
        | inl ready ↦ rw ready (take-Decided s1 k h1)
        | inr more ↦ rw more (await-Decided fuel s1 k h1)
      ]

  pub await-Passed :
      (call : PreparedToolCall) (o : Option (Bool × Service))
      → Decided call.approval_id o
      → Passed (decided_gate call o)
  unfolding decided_gate
  await-Passed call none d = tt
  await-Passed call (some (b, s)) (j, d) = (j, λ e. inr (inr (d e)))

  pub gate-Passed :
      (fuel : ℕ) (s : Service) (call : PreparedToolCall) (r : ToolCallRequest) (card : ℕ)
      → Justified s
      → call.request ≡ r
      → Passed (maybe_await_approval env others fuel s call r card)
  unfolding maybe_await_approval ask
  gate-Passed fuel s call r card h q =
      let s1 = yield_to env others s in
      let h1 = yield-Justified env others s h in
      let (call', s2) = ask env others s1 call r card in
      let asked = yield-Justified env others s1 h1 in
      let h2 : Justified s2 = yield-Justified env others _ asked in
      elim (Bool-cases (stop_requested s1)) [
        | inl stop ↦ rw stop h1
        | inr on ↦ elim (Bool-cases (str_eq r.name "ask_user")) [
          | inl user ↦
              rw (on, user)
                (h2, λ _. inr (inl (subst (λ x. str_eq x.name "ask_user" ≡ true) (sym q) user)))
          | inr tool ↦
              rw (on, tool) (await-Passed call' _ (await-Decided fuel s2 call'.approval_id h2))
        ]
      ]
