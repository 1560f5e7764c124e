-- ===== src/Service/Streams/Silence.antt =====
-- A round of a prompt, src/chat/chat_service_prompt_processor.cpp, passes on no `FinishedEvent`.
use Prim.Native.String.{String}
use text.Mathlib.Text.{◌==◌ as str_eq}
use yac.Common.{
  ℕ, ◌≡◌, refl, Bool, true, false, ◌&&◌, Option, none, some, List, [], ◌∷◌, arith, if◌then◌else◌,
  ◌==◌, Bool-cases, inl, inr,
}
use yac.Chat.Event.{ChatEvent, ConversationCompactedEvent}
use yac.Chat.Config.{ChatConfig, ChatRequest}
use yac.History.Summarize.{maybe_auto_compact_history}
use yac.Service.State.{Service, Env, Provider, emit}
use yac.Service.Calls.{Call}
use yac.Service.Quiet.{finished_of, finished_ids-quiet}
use yac.Service.Quiet.Calls.{yield-Quiet}
use yac.Service.Tools.{yield_to}
use yac.Service.Rounds.{streamed_card, card_or_next}
use yac.Service.Rounds.Finish.{Mild, Mild-trans, Quiet-Mild}
use yac.Service.Streams.{
  RoundOutcome, tell, accept, sink, sink_all, build_round_request, end_round, stream_round,
  run_one_round, use_reminder, reminder_path, asks_summary, auto_compact, tell_all, over_threshold,
}

pub same-Mild : (s t : Service) → t.log ≡ s.log → t.generation ≡ s.generation → Mild s t
same-Mild s t l g = record { finished = rw l refl; generation = omega (arith, g) }

pub emit-Mild : (s : Service) (e : ChatEvent) → finished_of e ≡ [] → Mild s (emit s e)
emit-Mild s e none_of = record {
  finished = finished_ids-quiet s.log e none_of;
  generation = omega arith;
}

abbrev pub MildRound : Service → Option (RoundOutcome × Service) → Type 0
MildRound s none = Unit {0}
MildRound s (some (o, t)) = Mild s t

module _ (env : Env) (others : ℕ → List Call) where
  pub yield-Mild : (s : Service) → Mild s (yield_to env others s)
  yield-Mild s = Quiet-Mild (yield-Quiet env others s)

  pub tell-Mild : (s : Service) (e : ChatEvent) → finished_of e ≡ [] → Mild s (tell env others s e)
  unfolding tell
  tell-Mild s e none_of = Mild-trans (emit-Mild s e none_of) (yield-Mild (emit s e))

  card-Mild : (o : Option ℕ) (s : Service) → Mild s (card_or_next env others o s).1
  unfolding card_or_next
  card-Mild (some i) s = same-Mild s s refl refl
  card-Mild none s = same-Mild s _ refl refl

  accept-Mild :
      (i : ℕ) (o : RoundOutcome) (s : Service) (e : ChatEvent)
      → Mild s (accept env others i o s e).1
  unfolding accept
  accept-Mild i o s (ChatEvent.tool_call_requested e) = same-Mild s s refl refl
  accept-Mild i o s (ChatEvent.text_delta e) = elim (Bool-cases (str_eq e.text "")) [
    | inl no_text ↦ rw no_text (same-Mild s s refl refl)
    | inr text ↦ rw text (emit-Mild s _ refl)
  ]
  accept-Mild i o s (ChatEvent.tool_call_argument_delta e) =
      Mild-trans (card-Mild (streamed_card o.streaming_card_ids e.tool_call_id) s)
        (emit-Mild _ _ refl)
  accept-Mild i o s (ChatEvent.error e) = emit-Mild s _ refl
  accept-Mild i o s (ChatEvent.finished e) = same-Mild s s refl refl
  accept-Mild i o s (ChatEvent.usage_reported e) =
      let s1 = record s { last_usage = some e.usage } in
      Mild-trans (same-Mild s s1 refl refl) (emit-Mild s1 (ChatEvent.usage_reported e) refl)
  accept-Mild i o s _ = emit-Mild s _ refl

  sink-Mild :
      (i g : ℕ) (o : RoundOutcome) (s : Service) (e : ChatEvent)
      → Mild s (sink env others i g o s e).1
  unfolding sink
  sink-Mild i g o s e =
      let s1 = yield_to env others s in
      let seen = Mild-trans (yield-Mild s) (yield-Mild s1) in
      elim (Bool-cases (s1.generation == g)) [
        | inl mine ↦ rw mine (Mild-trans seen (accept-Mild i o (yield_to env others s1) e))
        | inr stale ↦ rw stale (yield-Mild s)
      ]

  sink_all-Mild :
      (i g : ℕ) (o : RoundOutcome) (s : Service) (es : List ChatEvent)
      → Mild s (sink_all env others i g o s es).1
  unfolding sink_all
  sink_all-Mild i g o s [] = same-Mild s s refl refl
  sink_all-Mild i g o s (e ∷ es) =
      Mild-trans (sink-Mild i g o s e)
        (sink_all-Mild i g (sink env others i g o s e).0 (sink env others i g o s e).1 es)

  reminder-Mild : (p : Option String) (s : Service) → Mild s (use_reminder p s)
  unfolding use_reminder
  reminder-Mild none s = same-Mild s s refl refl
  reminder-Mild (some p) s = ground (arith, same-Mild s s refl refl)

  request-Mild : (s : Service) (g : ℕ) → Mild s (build_round_request env others s g).1
  unfolding build_round_request
  request-Mild s g =
      let s1 = yield_to env others s in
      let seen = Mild-trans (yield-Mild s) (yield-Mild s1) in
      elim (Bool-cases (s1.generation == g)) [
        | inl mine ↦
            rw mine
              (Mild-trans seen (reminder-Mild (reminder_path s.config) (yield_to env others s1)))
        | inr stale ↦ rw stale (yield-Mild s)
      ]

  end_round-Mild :
      (s : Service) (g : ℕ) (thrown : Option String) (x : RoundOutcome × Service)
      → Mild s x.1
      → MildRound s (end_round env others g thrown x)
  unfolding end_round
  end_round-Mild s g (some what) (o, t) h = tt
  end_round-Mild s g none (o, t) h = Mild-trans h (yield-Mild t)

  stream-Mild :
      (s : Service) (provider : Provider) (i g : ℕ) (x : Option ChatRequest × Service)
      → Mild s x.1
      → MildRound s (stream_round env others provider i g x)
  unfolding stream_round
  stream-Mild s provider i g (none, t) h = h
  stream-Mild s provider i g (some request, t) h =
      let out = provider.complete_stream request in
      end_round-Mild s g out.thrown _ (Mild-trans h (sink_all-Mild i g _ t out.events))

  pub round-Mild :
      (provider : Provider) (i g : ℕ) (s : Service)
      → MildRound s (run_one_round env others provider i g s)
  unfolding run_one_round
  round-Mild provider i g s = stream-Mild s provider i g _ (request-Mild s g)

  if-Mild : (b : Bool) (s t u : Service) → Mild s t → Mild s u → Mild s (if b then t else u)
  if-Mild true s t u p q = p
  if-Mild false s t u p q = q

  compacted-Mild :
      (b : Bool) (s : Service) (e : ConversationCompactedEvent)
      → Mild s (tell_all env others s (if b then ChatEvent.conversation_compacted e ∷ [] else []))
  unfolding tell_all
  compacted-Mild true s e = tell-Mild s (ChatEvent.conversation_compacted e) refl
  compacted-Mild false s e = same-Mild s s refl refl

  pub auto_compact-Mild :
      (config : ChatConfig) (provider : Provider) (s : Service)
      → Mild s (auto_compact env others config provider s)
  unfolding auto_compact maybe_auto_compact_history
  auto_compact-Mild config provider s =
      let s1 = if asks_summary env others config s.history then yield_to env others s else s in
      let meanwhile =
        if-Mild (asks_summary env others config s.history) s _ _ (yield-Mild s)
          (same-Mild s s refl refl) in
      if-Mild
        (config.auto_compact_enabled && over_threshold env others config provider s.last_usage) s _
        s (Mild-trans (Mild-trans meanwhile (same-Mild s1 _ refl refl)) (compacted-Mild _ _ _))
        (same-Mild s s refl refl)
