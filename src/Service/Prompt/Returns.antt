-- ===== src/Service/Prompt/Returns.antt =====
-- A prompt whose provider requests no tool is processed to its end:
-- src/chat/chat_service_prompt_processor.cpp.
use Prim.Native.String.{String}
use text.Mathlib.Text.{◌==◌ as str_eq}
use yac.Common.{
  ℕ, suc, ◌≡◌, ◌≢◌, refl, ◌∙◌, Bool, true, false, Option, none, some, List, [], ◌∷◌, arith,
  if◌then◌else◌, ◌==◌, Bool-cases, inl, inr,
}
use yac.Chat.Event.{ChatEvent}
use yac.Chat.Config.{ChatConfig, ChatRequest}
use yac.Service.State.{Service, Env, Provider}
use yac.Service.Calls.{Call}
use yac.Service.Tools.{yield_to}
use yac.Service.Streams.{
  Stop, RoundOutcome, accept, sink, sink_all, end_round, stream_round, round_stop, run_one_round,
  is_error,
}
use yac.Service.Prompt.{
  after_round, take_round, rounds, start_prompt, with_provider, process_prompt,
}

abbrev pub requests_tools : ChatEvent → Bool
requests_tools (ChatEvent.tool_call_requested e) = true
requests_tools _ = false

-- No event of a stream requests a tool.
abbrev pub Plain : List ChatEvent → Type 0
Plain [] = Unit {0}
Plain (e ∷ es) = (requests_tools e ≡ false) × Plain es

-- A provider that throws nothing and requests no tool.
abbrev pub IsPlain : Provider → Type 0
IsPlain provider =
    (r : ChatRequest)
    → ((provider.complete_stream r).thrown ≡ none) × Plain (provider.complete_stream r).events

abbrev pub Returns : Option Service → Type 0
Returns o = (t : Service) × (o ≡ some t)

-- The round is over, and not for the sake of tools.
abbrev Closed : Option (RoundOutcome × Service) → Type 0
Closed none = ⊥
Closed (some (o, s)) = o.stop ≢ Stop.call_tools

if-Returns :
    (b : Bool) (o p : Option Service) → Returns o → Returns p → Returns (if b then o else p)
if-Returns true o p h k = h
if-Returns false o p h k = k

abbrev is_call : Stop → Bool
is_call Stop.call_tools = true
is_call _ = false

module _ (env : Env) (others : ℕ → List Call) where
  accept-requested :
      (i : ℕ) (o : RoundOutcome) (s : Service) (e : ChatEvent)
      → requests_tools e ≡ false
      → (accept env others i o s e).0.requested_tools ≡ o.requested_tools
  unfolding accept
  accept-requested i o s (ChatEvent.tool_call_requested e) h = absurd (cc)
  accept-requested i o s (ChatEvent.text_delta e) h = elim (Bool-cases (str_eq e.text "")) [
    | inl no_text ↦ rw no_text refl
    | inr text ↦ rw text refl
  ]
  accept-requested i o s _ h = refl

  sink-requested :
      (i g : ℕ) (o : RoundOutcome) (s : Service) (e : ChatEvent)
      → requests_tools e ≡ false
      → (sink env others i g o s e).0.requested_tools ≡ o.requested_tools
  unfolding sink
  sink-requested i g o s e h =
      let s1 = yield_to env others s in
      elim (Bool-cases (s1.generation == g)) [
        | inl mine ↦ rw mine (accept-requested i o (yield_to env others s1) e h)
        | inr stale ↦ rw stale refl
      ]

  sink_all-requested :
      (i g : ℕ) (es : List ChatEvent) (o : RoundOutcome) (s : Service)
      → Plain es
      → (sink_all env others i g o s es).0.requested_tools ≡ o.requested_tools
  unfolding sink_all
  sink_all-requested i g [] o s h = refl
  sink_all-requested i g (e ∷ es) o s (h, hs) =
      sink_all-requested i g es _ _ hs ∙ sink-requested i g o s e h

  stop_lem :
      (s : Service) (g : ℕ) (o : RoundOutcome)
      → o.requested_tools ≡ []
      → is_call (round_stop env others s g o) ≡ false
  unfolding round_stop
  stop_lem s g o none_asked = elim (Bool-cases (s.generation == g)) [
    | inl mine ↦ elim (Bool-cases (is_error o.stop)) [
      | inl failed ↦ rw (mine, failed) refl
      | inr fine ↦ rw (mine, fine, none_asked) refl
    ]
    | inr stale ↦ rw stale refl
  ]

  not_call : (x : Stop) → is_call x ≡ false → x ≢ Stop.call_tools
  not_call x h e = absurd (ground (arith, e, h))

  end_round-Closed :
      (g : ℕ) (thrown : Option String) (x : RoundOutcome × Service)
      → thrown ≡ none
      → x.0.requested_tools ≡ []
      → Closed (end_round env others g thrown x)
  unfolding end_round
  end_round-Closed g (some what) x none_thrown none_asked = absurd (cc)
  end_round-Closed g none (o, s) none_thrown none_asked =
      not_call _ (stop_lem (yield_to env others s) g o none_asked)

  stream_round-Closed :
      (provider : Provider) (i g : ℕ) (x : Option ChatRequest × Service)
      → IsPlain provider
      → Closed (stream_round env others provider i g x)
  unfolding stream_round
  stream_round-Closed provider i g (none, s) plain = λ e. absurd (cc)
  stream_round-Closed provider i g (some r, s) plain =
      end_round-Closed g _ _ (plain r).0 (sink_all-requested i g _ _ s (plain r).1)

  after_round-Returns :
      (fuel : ℕ) (next : Service → Option Service) (i g : ℕ) (stop : Stop) (o : RoundOutcome)
      (s : Service)
      → stop ≢ Stop.call_tools
      → Returns (after_round env others fuel next i g stop o s)
  unfolding after_round
  after_round-Returns fuel next i g Stop.aborted o s h = (_, refl)
  after_round-Returns fuel next i g Stop.stream_error o s h = (_, refl)
  after_round-Returns fuel next i g Stop.model_done o s h = (_, refl)
  after_round-Returns fuel next i g Stop.call_tools o s h = absurd (h refl)

  take_round-Returns :
      (fuel : ℕ) (next : Service → Option Service) (i g : ℕ) (x : Option (RoundOutcome × Service))
      → Closed x
      → Returns (take_round env others fuel next i g x)
  unfolding take_round
  take_round-Returns fuel next i g none h = absurd h
  take_round-Returns fuel next i g (some (o, s)) h = after_round-Returns fuel next i g o.stop o s h

  rounds-Returns :
      (n fuel : ℕ) (provider : Provider) (i g : ℕ) (s : Service)
      → IsPlain provider
      → Returns (rounds env others (suc n) fuel provider i g s)
  unfolding rounds run_one_round
  rounds-Returns n fuel provider i g s plain =
      take_round-Returns fuel _ i g _ (stream_round-Closed provider i g _ plain)

  with_provider-Returns :
      (n fuel : ℕ) (config : ChatConfig) (o : Option Provider) (i p : ℕ) (content : String) (g : ℕ)
      (s : Service)
      → ((provider : Provider) → o ≡ some provider → IsPlain provider)
      → Returns (with_provider env others (suc n) fuel config o i p content g s)
  unfolding with_provider start_prompt
  with_provider-Returns n fuel config none i p content g s plain = (_, refl)
  with_provider-Returns n fuel config (some provider) i p content g s plain =
      if-Returns _ _ _
        (if-Returns _ _ _ (rounds-Returns n fuel provider i g _ (plain provider refl)) (_, refl))
        (_, refl)

  -- If every registered provider throws nothing and requests no tool, then with fuel for one round
  -- the processing of a prompt comes to an end, whatever other threads do.
  pub process_prompt-Returns :
      ((provider_id : String) (provider : Provider)
        → env.resolve_provider provider_id ≡ some provider
        → IsPlain provider)
      → (n fuel p : ℕ) (content : String) (g : ℕ) (s : Service)
      → Returns (process_prompt env others (suc n) fuel p content g s)
  unfolding process_prompt
  process_prompt-Returns plain n fuel p content g s =
      with_provider-Returns n fuel _ _ s.next_id p content g _ (plain _)
