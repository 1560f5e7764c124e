-- ===== src/Service/Prompt/Once.antt =====
-- How often a prompt is finished: `ProcessPrompt` of src/chat/chat_service_prompt_processor.cpp.
use Prim.Native.String.{String}
use text.Mathlib.Text.{◌==◌ as str_eq}
use yac.Common.{
  ℕ, zero, suc, ◌≡◌, refl, ap, ◌∙◌, ◌≤◌, ◌<◌, ◌⊎◌, inl, inr, Bool, true, false, ◌||◌, not, Option,
  none, some, List, [], ◌∷◌, ◌++◌, arith, if◌then◌else◌, ◌==◌, Bool-cases, subst,
}
use yac.Chat.Config.{ChatConfig}
use yac.Service.State.{Service, Env, Provider, emit, stop_requested}
use yac.Service.Calls.{Call}
use yac.Service.Quiet.{finished_ids, finished_ids-append}
use yac.Service.Tools.{yield_to}
use yac.Service.Rounds.{Step, go_on, leave, stuck}
use yac.Service.Rounds.Finish.{Mild, Mild-trans, MildStep, run_tools-MildStep}
use yac.Service.Streams.{Stop, RoundOutcome, tell}
use yac.Service.Streams.Silence.{
  same-Mild, MildRound, yield-Mild, tell-Mild, round-Mild, auto_compact-Mild,
}
use yac.Service.Prompt.{
  status_event, answer_started_event, no_provider_event, message_done_event, finished_event,
  emit_cancellation, emit_done, finish_text, after_tools, after_step, call_round, after_round,
  take_round, rounds, start_prompt, with_provider, process_prompt,
}

-- Exactly the message `i` was finished.
record Once (i : ℕ) (s t : Service) : Type 0 where
  pub ids : finished_ids t.log ≡ finished_ids s.log ++ i ∷ []

-- If the worker came back, it finished exactly the message `i`.
abbrev OnceIn : ℕ → Service → Option Service → Type 0
OnceIn i s none = Unit {0}
OnceIn i s (some t) = Once i s t

Mild-Once : {i : ℕ} {s t u : Service} → Mild s t → Once i t u → Once i s u
Mild-Once {i} p q = record { ids = q.ids ∙ ap (◌++ (i ∷ [])) p.finished }

Mild-OnceIn : (i : ℕ) (s t : Service) (o : Option Service) → Mild s t → OnceIn i t o → OnceIn i s o
Mild-OnceIn i s t none p q = tt
Mild-OnceIn i s t (some u) p q = Mild-Once p q

if-Once :
    (b : Bool) (i : ℕ) (s t u : Service) → Once i s t → Once i s u → Once i s (if b then t else u)
if-Once true i s t u p q = p
if-Once false i s t u p q = q

if-OnceIn :
    (b : Bool) (i : ℕ) (s : Service) (o p : Option Service)
    → OnceIn i s o
    → OnceIn i s p
    → OnceIn i s (if b then o else p)
if-OnceIn true i s o p h k = h
if-OnceIn false i s o p h k = k

module _ (env : Env) (others : ℕ → List Call) where
  finish-Once : (i : ℕ) (s : Service) → Once i s (tell env others s (finished_event i))
  unfolding tell finished_ids
  finish-Once i s = record {
    ids =
        (yield-Mild env others (emit s (finished_event i))).finished
        ∙ finished_ids-append s.log (finished_event i ∷ []);
  }

  cancellation-Once : (i : ℕ) (s : Service) → Once i s (emit_cancellation env others i s)
  unfolding emit_cancellation status_event
  cancellation-Once i s = Mild-Once (tell-Mild env others s _ refl) (finish-Once i _)

  done-Once : (i : ℕ) (s : Service) → Once i s (emit_done env others i s)
  unfolding emit_done message_done_event
  done-Once i s = Mild-Once (tell-Mild env others s _ refl) (finish-Once i _)

  text-Once : (i g : ℕ) (text : String) (s : Service) → Once i s (finish_text env others i g text s)
  unfolding finish_text
  text-Once i g text s = if-Once (str_eq text "") i s _ _ (done-Once i s) (
      if-Once (s.generation == g) i s _ _ (Mild-Once (same-Mild s _ refl refl) (done-Once i _))
        (cancellation-Once i s))

  after_tools-OnceIn :
      (next : Service → Option Service) (i g : ℕ) (s : Service)
      → OnceIn i s (next s)
      → OnceIn i s (after_tools env others next i g s)
  unfolding after_tools
  after_tools-OnceIn next i g s h =
      if-OnceIn (stop_requested s || not (s.generation == g)) i s _ _ (cancellation-Once i s) h

  after_step-OnceIn :
      (next : Service → Option Service) (i g : ℕ) (s : Service) (x : Step)
      → ((t : Service) → OnceIn i t (next t))
      → MildStep s x
      → OnceIn i s (after_step env others next i g x)
  unfolding after_step
  after_step-OnceIn next i g s stuck k h = tt
  after_step-OnceIn next i g s (go_on t) k h =
      Mild-OnceIn i s (yield_to env others t) _ (Mild-trans h (yield-Mild env others t))
        (after_tools-OnceIn next i g (yield_to env others t) (k (yield_to env others t)))
  after_step-OnceIn next i g s (leave t) k h =
      Mild-OnceIn i s (yield_to env others t) _ (Mild-trans h (yield-Mild env others t))
        (after_tools-OnceIn next i g (yield_to env others t) (k (yield_to env others t)))

  call_round-OnceIn :
      (fuel : ℕ) (next : Service → Option Service) (i g : ℕ) (o : RoundOutcome) (s : Service)
      → ((t : Service) → OnceIn i t (next t))
      → OnceIn i s (call_round env others fuel next i g o s)
  unfolding call_round
  call_round-OnceIn fuel next i g o s k =
      if-OnceIn (s.generation == g) i s _ _
        (Mild-OnceIn i s _ _ (same-Mild s _ refl refl) (
          after_step-OnceIn next i g _ _ k
            (run_tools-MildStep env others fuel _ o.streaming_card_ids o.requested_tools g)))
        (cancellation-Once i s)

  after_round-OnceIn :
      (fuel : ℕ) (next : Service → Option Service) (i g : ℕ) (stop : Stop) (o : RoundOutcome)
      (s : Service)
      → ((t : Service) → OnceIn i t (next t))
      → OnceIn i s (after_round env others fuel next i g stop o s)
  unfolding after_round
  after_round-OnceIn fuel next i g Stop.aborted o s k = cancellation-Once i s
  after_round-OnceIn fuel next i g Stop.stream_error o s k = finish-Once i s
  after_round-OnceIn fuel next i g Stop.model_done o s k =
      Mild-Once (yield-Mild env others s) (text-Once i g o.round_text (yield_to env others s))
  after_round-OnceIn fuel next i g Stop.call_tools o s k =
      Mild-OnceIn i s _ _ (yield-Mild env others s)
        (call_round-OnceIn fuel next i g o (yield_to env others s) k)

  take_round-OnceIn :
      (fuel : ℕ) (next : Service → Option Service) (i g : ℕ) (s : Service)
      (x : Option (RoundOutcome × Service))
      → ((t : Service) → OnceIn i t (next t))
      → MildRound s x
      → OnceIn i s (take_round env others fuel next i g x)
  unfolding take_round
  take_round-OnceIn fuel next i g s none k h = tt
  take_round-OnceIn fuel next i g s (some (o, t)) k h =
      Mild-OnceIn i s t _ h (after_round-OnceIn fuel next i g o.stop o t k)

  rounds-OnceIn :
      (n fuel : ℕ) (provider : Provider) (i g : ℕ) (s : Service)
      → OnceIn i s (rounds env others n fuel provider i g s)
  unfolding rounds
  rounds-OnceIn zero fuel provider i g s = tt
  rounds-OnceIn (suc n) fuel provider i g s =
      take_round-OnceIn fuel _ i g s _ (λ t. rounds-OnceIn n fuel provider i g t)
        (round-Mild env others provider i g s)

  -- The message was finished once, or not at all and the generation has passed.
  abbrev AtMostOnce : ℕ → ℕ → Service → Option Service → Type 0
  AtMostOnce i g s none = Unit {0}
  AtMostOnce i g s (some t) =
      Once i s t ⊎ ((finished_ids t.log ≡ finished_ids s.log) × (g < t.generation))

  once : (i g : ℕ) (s : Service) (o : Option Service) → OnceIn i s o → AtMostOnce i g s o
  once i g s none h = tt
  once i g s (some t) h = inl h

  Mild-AtMostOnce :
      (i g : ℕ) (s t : Service) (o : Option Service)
      → Mild s t
      → AtMostOnce i g t o
      → AtMostOnce i g s o
  Mild-AtMostOnce i g s t none p h = tt
  Mild-AtMostOnce i g s t (some u) p (inl h) = inl (Mild-Once p h)
  Mild-AtMostOnce i g s t (some u) p (inr (e, l)) = inr (e ∙ p.finished, l)

  -- Going on in the generation `g`, and leaving without a word in a later one.
  guard-AtMostOnce :
      (i g : ℕ) (s : Service) (o : Option Service)
      → g ≤ s.generation
      → AtMostOnce i g s o
      → AtMostOnce i g s (if s.generation == g then o else some s)
  guard-AtMostOnce i g s o late h = elim (Bool-cases (s.generation == g)) [
    | inl mine ↦ rw mine h
    | inr passed ↦ rw passed (inr (refl, ground (arith, passed, late)))
  ]

  start-AtMostOnce :
      (n fuel : ℕ) (config : ChatConfig) (provider : Provider) (i p : ℕ) (content : String) (g : ℕ)
      (s : Service)
      → g ≤ s.generation
      → AtMostOnce i g s (start_prompt env others n fuel config provider i p content g s)
  unfolding start_prompt status_event answer_started_event
  start-AtMostOnce n fuel config provider i p content g s late =
      let added = same-Mild s _ refl refl in
      let shown = Mild-trans added (tell-Mild env others _ _ refl) in
      let started = Mild-trans shown (tell-Mild env others _ _ refl) in
      guard-AtMostOnce i g s _ late
        (once i g s _ (Mild-OnceIn i s _ _ started (rounds-OnceIn n fuel provider i g _)))

  provider-AtMostOnce :
      (n fuel : ℕ) (config : ChatConfig) (o : Option Provider) (i p : ℕ) (content : String) (g : ℕ)
      (s : Service)
      → g ≤ s.generation
      → AtMostOnce i g s (with_provider env others n fuel config o i p content g s)
  unfolding with_provider status_event no_provider_event
  provider-AtMostOnce n fuel config none i p content g s late =
      let shown = tell-Mild env others s _ refl in
      inl (Mild-Once (Mild-trans shown (tell-Mild env others _ _ refl)) (finish-Once i _))
  provider-AtMostOnce n fuel config (some provider) i p content g s late =
      let s1 = yield_to env others s in
      let first = yield-Mild env others s in
      let compacted = auto_compact-Mild env others config provider s1 in
      let ready = Mild-trans compacted (yield-Mild env others _) in
      let late1 : g ≤ s1.generation = omega (arith, late, first.generation) in
      Mild-AtMostOnce i g s s1 _ first (
        guard-AtMostOnce i g s1 _ late1 (
          Mild-AtMostOnce i g s1 _ _ ready (
            start-AtMostOnce n fuel config provider i p content g _
              (omega (arith, late1, ready.generation)))))

  -- A prompt that is processed in a generation not above the service's, and whose processing comes
  -- to an end, is finished exactly once, by an event with the id of its answer, or else not at all,
  -- and then its generation has passed; no other message is finished meanwhile, whatever the
  -- provider streams and whatever other threads do.
  pub process_prompt-finished :
      (n fuel : ℕ) (p : ℕ) (content : String) (g : ℕ) (s t : Service)
      → g ≤ s.generation
      → process_prompt env others n fuel p content g s ≡ some t
      → (finished_ids t.log ≡ finished_ids s.log ++ s.next_id ∷ [])
        ⊎ ((finished_ids t.log ≡ finished_ids s.log) × (g < t.generation))
  unfolding process_prompt
  process_prompt-finished n fuel p content g s t late ran = spell (
      subst (AtMostOnce s.next_id g s) ran (
        Mild-AtMostOnce s.next_id g s _ _ first (
          provider-AtMostOnce n fuel _ _ s.next_id p content g _
            (omega (arith, late, first.generation)))))
    where
      spell :
          AtMostOnce s.next_id g s (some t)
          → (finished_ids t.log ≡ finished_ids s.log ++ s.next_id ∷ [])
            ⊎ ((finished_ids t.log ≡ finished_ids s.log) × (g < t.generation))
      spell (inl h) = inl h.ids
      spell (inr h) = inr h

      first : Mild s (yield_to env others (record s { next_id = suc s.next_id }))
      first = Mild-trans (same-Mild s _ refl refl) (yield-Mild env others _)
