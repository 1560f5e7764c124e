-- ===== src/Service/Rounds/Record.antt =====
-- What a round of src/chat/tool_round_runner.cpp may have run, in the terms of the steps recorded
-- in the service: cleared by an approval and allowed in the mode.
use Prim.Native.String.{String}
use text.Mathlib.Text.{◌==◌ as str_eq}
use yac.Common.{
  ℕ, ◌≡◌, refl, ◌⊎◌, inl, inr, Bool, true, false, none, List, [], ◌∷◌, ◌++◌, if◌then◌else◌,
  Bool-cases, arith,
}
use yac.Chat.Message.{ToolCallRequest}
use yac.Chat.Mode.{AgentMode, contains, excluded_tools_for_mode, is_tool_allowed_for_mode}
use yac.Chat.Mode.Offer.{excluded_not_allowed}
use yac.Service.State.{Service, Env, PreparedToolCall, prepared}
use yac.Service.Calls.{Call}
use yac.Service.Quiet.{Quiet}
use yac.Service.Quiet.Calls.{yield-Quiet}
use yac.Service.Tools.{plan_mode_permission_error, yield_to}
use yac.Service.Rounds.{Step, go_on, leave, stuck}

abbrev pub In : String × Bool → List (String × Bool) → Type 0
In x [] = ⊥
In x (y ∷ ys) = (x ≡ y) ⊎ In x ys

-- An approval is not needed, or the tool asks the user itself, or a wait returned this approval.
abbrev pub Cleared : List (String × Bool) → PreparedToolCall → Type 0
Cleared rs call =
    (call.requires_approval ≡ false)
    ⊎ ((str_eq call.request.name "ask_user" ≡ true) ⊎ In (call.approval_id, true) rs)

-- What a tool that is run in a mode has to be: in Plan mode one that the mode allows, and none of
-- those it excludes.
abbrev pub Permitted : AgentMode → String → Type 0
Permitted AgentMode.build name = Unit {0}
Permitted AgentMode.plan name =
    (is_tool_allowed_for_mode AgentMode.plan name ≡ true)
    × (contains (excluded_tools_for_mode AgentMode.plan) name ≡ false)

pub error-Permitted :
    (mode : AgentMode) (r : ToolCallRequest)
    → plan_mode_permission_error mode r ≡ none
    → Permitted mode r.name
unfolding plan_mode_permission_error
error-Permitted AgentMode.build r e = tt
error-Permitted AgentMode.plan r e =
    elim (Bool-cases (is_tool_allowed_for_mode AgentMode.plan r.name)) [
      | inl allowed ↦ elim (Bool-cases (contains (excluded_tools_for_mode AgentMode.plan) r.name)) [
        | inl out ↦ ground (arith, allowed, excluded_not_allowed AgentMode.plan r.name out)
        | inr free ↦ (allowed, free)
      ]
      | inr denied ↦ ground (arith, rw denied at e)
    ]

-- What was run was cleared, and allowed in the mode in which it was run.
abbrev pub Sound : List (String × Bool) → List (PreparedToolCall × AgentMode) → Type 0
Sound rs [] = Unit {0}
Sound rs ((call, mode) ∷ es) = (Cleared rs call × Permitted mode call.request.name) × Sound rs es

abbrev pub Justified : Service → Type 0
Justified s = Sound s.resolutions s.executed

-- Preparing a call keeps the request that is prepared.
pub record KeepsRequest (env : Env) : Type 0 where
  pub built_in :
      (r : ToolCallRequest) (p : PreparedToolCall)
      → env.prepare_built_in r ≡ prepared p
      → p.request ≡ r
  pub mcp :
      (r : ToolCallRequest) (p : PreparedToolCall) → env.prepare_mcp r ≡ prepared p → p.request ≡ r

pub In-append : (x : String × Bool) (xs ys : List (String × Bool)) → In x xs → In x (xs ++ ys)
In-append x [] ys h = absurd h
In-append x (y ∷ xs) ys (inl h) = inl h
In-append x (y ∷ xs) ys (inr h) = inr (In-append x xs ys h)

pub In-last : (x : String × Bool) (xs : List (String × Bool)) → In x (xs ++ x ∷ [])
In-last x [] = inl refl
In-last x (y ∷ xs) = inr (In-last x xs)

pub Cleared-append :
    (rs qs : List (String × Bool)) (call : PreparedToolCall)
    → Cleared rs call
    → Cleared (rs ++ qs) call
Cleared-append rs qs call (inl h) = inl h
Cleared-append rs qs call (inr (inl h)) = inr (inl h)
Cleared-append rs qs call (inr (inr h)) = inr (inr (In-append _ rs qs h))

pub Sound-append :
    (rs qs : List (String × Bool)) (es : List (PreparedToolCall × AgentMode))
    → Sound rs es
    → Sound (rs ++ qs) es
Sound-append rs qs [] h = tt
Sound-append rs qs ((call, mode) ∷ es) ((c, m), h) =
    ((Cleared-append rs qs call c, m), Sound-append rs qs es h)

pub Sound-snoc :
    (rs : List (String × Bool)) (es : List (PreparedToolCall × AgentMode)) (call : PreparedToolCall)
    (mode : AgentMode)
    → Sound rs es
    → Cleared rs call
    → Permitted mode call.request.name
    → Sound rs (es ++ (call, mode) ∷ [])
Sound-snoc rs [] call mode h c m = ((c, m), tt)
Sound-snoc rs (e ∷ es) call mode (x, h) c m = (x, Sound-snoc rs es call mode h c m)

pub Justified-Quiet : {s t : Service} → Quiet s t → Justified s → Justified t
Justified-Quiet q h = rw (q.resolutions, q.executed) h

pub Cleared-Quiet :
    {s t : Service} (call : PreparedToolCall)
    → Quiet s t
    → Cleared s.resolutions call
    → Cleared t.resolutions call
Cleared-Quiet call q h = rw q.resolutions h

abbrev pub Holds : Step → Type 0
Holds (go_on s) = Justified s
Holds (leave s) = Justified s
Holds stuck = Unit {0}

pub if-Holds :
    (b : Bool) (x y : Step)
    → (b ≡ true → Holds x)
    → (b ≡ false → Holds y)
    → Holds (if b then x else y)
if-Holds true x y p q = p refl
if-Holds false x y p q = q refl

module _ (env : Env) (others : ℕ → List Call) where
  pub yield-Justified : (s : Service) → Justified s → Justified (yield_to env others s)
  yield-Justified s h = Justified-Quiet (yield-Quiet env others s) h
