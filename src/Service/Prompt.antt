-- ===== src/Service/Prompt.antt =====
-- One prompt: `ProcessPrompt` of src/chat/chat_service_prompt_processor.cpp. `none` means that the
-- worker has not come back: the fuel of the rounds or of a wait ran out, or something threw.
pub mod Once
pub mod Returns
use Prim.Native.String.{String}
use Prim.Native.String
use text.Mathlib.Text.{◌==◌ as str_eq}
use yac.Common.{
  ℕ, zero, suc, Bool, true, false, ◌||◌, not, Option, none, some, List, [], ◌∷◌, if◌then◌else◌,
  ◌==◌,
}
use yac.Chat.Message.{ChatRole, ChatMessageStatus}
use yac.Chat.Event.{ChatEvent}
use yac.Chat.Config.{ChatConfig}
use yac.History.{
  append_active_user_message, append_assistant_tool_round, append_final_assistant_message,
}
use yac.Service.State.{Service, Env, Provider, next_message_id, stop_requested}
use yac.Service.Calls.{Call}
use yac.Service.Tools.{yield_to}
use yac.Service.Rounds.{Step, go_on, leave, stuck, run_tools}
use yac.Service.Streams.{
  Stop, model_done, call_tools, aborted, stream_error, RoundOutcome, tell, run_one_round,
  auto_compact,
}

unfoldable pub status_event : ℕ → ChatRole → ChatMessageStatus → ChatEvent
status_event i role status =
    ChatEvent.message_status_changed (record { message_id = i; role = role; status = status })

abbrev pub finished_event : ℕ → ChatEvent
finished_event i = ChatEvent.finished (record { message_id = i })

unfoldable pub answer_started_event : ℕ → ChatConfig → ChatEvent
answer_started_event i config = ChatEvent.started (record {
  message_id = i;
  role = ChatRole.assistant;
  provider_id = config.provider_id;
  model = config.model;
  status = ChatMessageStatus.active;
})

unfoldable pub no_provider_event : ℕ → String → ChatEvent
no_provider_event i provider_id = ChatEvent.error (record {
  message_id = i;
  role = ChatRole.assistant;
  text = String.◌++◌ "No provider registered for '" (String.◌++◌ provider_id "'.");
  provider_id = "";
  model = "";
  status = ChatMessageStatus.error;
})

unfoldable pub message_done_event : ℕ → ChatEvent
message_done_event i = ChatEvent.assistant_message_done (record {
  message_id = i;
  role = ChatRole.assistant;
  provider_id = "";
  model = "";
  status = ChatMessageStatus.complete;
})

module _ (env : Env) (others : ℕ → List Call) where
  unfoldable pub emit_cancellation : ℕ → Service → Service
  emit_cancellation i s =
      tell env others
        (tell env others s (status_event i ChatRole.assistant ChatMessageStatus.cancelled))
        (finished_event i)

  unfoldable pub emit_done : ℕ → Service → Service
  emit_done i s = tell env others (tell env others s (message_done_event i)) (finished_event i)

  -- The final text goes into the history if the generation is still the worker's.
  unfoldable pub finish_text : ℕ → ℕ → String → Service → Service
  finish_text i generation text s =
      if str_eq text ""
      then emit_done i s
      else if s.generation == generation
      then emit_done i (record s { history = append_final_assistant_message s.history i text })
      else emit_cancellation i s

  -- After the tools ran: the next round, if the worker is not to stop.
  unfoldable pub after_tools : (Service → Option Service) → ℕ → ℕ → Service → Option Service
  after_tools next i generation s =
      let rest = next s in
      if stop_requested s || not (s.generation == generation)
      then some (emit_cancellation i s)
      else rest

  unfoldable pub after_step : (Service → Option Service) → ℕ → ℕ → Step → Option Service
  after_step next i generation stuck = none
  after_step next i generation (go_on s) = after_tools next i generation (yield_to env others s)
  after_step next i generation (leave s) = after_tools next i generation (yield_to env others s)

  unfoldable pub call_round :
      ℕ → (Service → Option Service) → ℕ → ℕ → RoundOutcome → Service → Option Service
  call_round fuel next i generation o s =
      let h = append_assistant_tool_round s.history i o.round_text o.requested_tools in
      let step =
        run_tools env others fuel (record s { history = h }) o.streaming_card_ids o.requested_tools
          generation in
      if s.generation == generation
      then after_step next i generation step
      else some (emit_cancellation i s)

  unfoldable pub after_round :
      ℕ → (Service → Option Service) → ℕ → ℕ → Stop → RoundOutcome → Service → Option Service
  after_round fuel next i generation Stop.aborted o s = some (emit_cancellation i s)
  after_round fuel next i generation Stop.stream_error o s =
      some (tell env others s (finished_event i))
  after_round fuel next i generation Stop.model_done o s =
      some (finish_text i generation o.round_text (yield_to env others s))
  after_round fuel next i generation Stop.call_tools o s =
      call_round fuel next i generation o (yield_to env others s)

  unfoldable pub take_round :
      ℕ → (Service → Option Service) → ℕ → ℕ → Option (RoundOutcome × Service) → Option Service
  take_round fuel next i generation none = none
  take_round fuel next i generation (some (o, s)) = after_round fuel next i generation o.stop o s

  -- The loop, on fuel for its rounds and for each wait.
  unfoldable pub rounds : ℕ → ℕ → Provider → ℕ → ℕ → Service → Option Service
  rounds zero fuel provider i generation s = none
  rounds (suc n) fuel provider i generation s =
      take_round fuel (rounds n fuel provider i generation) i generation
        (run_one_round env others provider i generation s)

  unfoldable pub start_prompt :
      ℕ → ℕ → ChatConfig → Provider → ℕ → ℕ → String → ℕ → Service → Option Service
  start_prompt n fuel config provider i prompt_id content generation s =
      let h = append_active_user_message s.history prompt_id content in
      let shown =
        tell env others (record s { history = h })
          (status_event prompt_id ChatRole.user ChatMessageStatus.complete) in
      let ended =
        rounds n fuel provider i generation
          (tell env others shown (answer_started_event i config)) in
      if s.generation == generation then ended else some s

  unfoldable pub with_provider :
      ℕ → ℕ → ChatConfig → Option Provider → ℕ → ℕ → String → ℕ → Service → Option Service
  with_provider n fuel config none i prompt_id content generation s =
      let shown =
        tell env others s (status_event prompt_id ChatRole.user ChatMessageStatus.complete) in
      let told = tell env others shown (no_provider_event i config.provider_id) in
      some (tell env others told (finished_event i))
  with_provider n fuel config (some provider) i prompt_id content generation s =
      let s1 = yield_to env others s in
      let ready = yield_to env others (auto_compact env others config provider s1) in
      let ended = start_prompt n fuel config provider i prompt_id content generation ready in
      if s1.generation == generation then ended else some s1

  unfoldable pub process_prompt : ℕ → ℕ → ℕ → String → ℕ → Service → Option Service
  process_prompt n fuel prompt_id content generation s =
      let (i, s1) = next_message_id s in
      let s2 = yield_to env others s1 in
      with_provider n fuel s2.config (env.resolve_provider s2.config.provider_id) i prompt_id
        content generation s2
