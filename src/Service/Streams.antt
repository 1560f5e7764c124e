-- ===== src/Service/Streams.antt =====
-- One round of a prompt: `RunOneRound` and `BuildRoundRequest` of
-- src/chat/chat_service_prompt_processor.cpp, and the automatic compaction before the first round.
-- An event of the provider's stream that the sink takes is one step, with other threads running
-- before the generation is compared and after it.
pub mod Silence
use Prim.Native.String.{String}
use Prim.Native.String
use text.Mathlib.Text.{◌==◌ as str_eq}
use yac.Common.{
  ℕ, suc, ◌*◌, Bool, true, false, ◌&&◌, not, Option, none, some, List, [], ◌∷◌, ◌++◌, ltb, leb,
  if◌then◌else◌, ◌==◌,
}
use yac.Chat.Message.{ChatMessage, ChatRole, ChatMessageStatus, ToolCallRequest, TokenUsage}
use yac.Chat.Mode.{AgentMode, excluded_tools_for_mode, filter_tools_for_agent_mode}
use yac.Chat.Event.{ChatEvent}
use yac.Chat.Config.{ChatConfig, ChatRequest}
use yac.History.Summarize.{Stream, snapshot_slice, maybe_auto_compact_history}
use yac.Service.State.{Service, Env, Provider, emit, next_message_id}
use yac.Service.Calls.{Call, is_plan, is_empty}
use yac.Service.Tools.{yield_to}
use yac.Service.Rounds.{streamed_card, card_or_next}

pub data Stop : Type 0 where
  model_done call_tools aborted stream_error : Stop

pub record RoundOutcome : Type 0 where
  pub stop : Stop
  pub round_text : String
  pub requested_tools : List ToolCallRequest
  pub streaming_card_ids : List (String × ℕ)

abbrev pub no_round : RoundOutcome
no_round = record {
  stop = Stop.model_done;
  round_text = "";
  requested_tools = [];
  streaming_card_ids = [];
}

-- `try_emplace`: a card that is there stays.
unfoldable pub keep_card : Option ℕ → List (String × ℕ) → String → ℕ → List (String × ℕ)
keep_card (some i) m k card = m
keep_card none m k card = (k, card) ∷ m

-- The reminder that a request in Build mode uses up.
unfoldable pub reminder_path : ChatConfig → Option String
reminder_path config = if is_plan config.agent_mode then none else config.build_switch_plan_path

unfoldable pub same_path : Option String → String → Bool
same_path none p = false
same_path (some q) p = str_eq q p

unfoldable pub use_reminder : Option String → Service → Service
use_reminder none s = s
use_reminder (some p) s =
    if same_path s.config.build_switch_plan_path p
    then record s { config = record s.config { build_switch_plan_path = none } }
    else s

abbrev pub is_error : Stop → Bool
is_error Stop.stream_error = true
is_error _ = false

module _ (env : Env) (others : ℕ → List Call) where
  -- An event is emitted, and other threads run.
  unfoldable pub tell : Service → ChatEvent → Service
  tell s e = yield_to env others (emit s e)

  -- The sink, once the generation was compared.
  unfoldable pub accept : ℕ → RoundOutcome → Service → ChatEvent → RoundOutcome × Service
  accept i o s (ChatEvent.tool_call_requested e) = (record o { requested_tools = e.tool_calls }, s)
  accept i o s (ChatEvent.text_delta e) = if str_eq e.text "" then (o, s) else (
    record o { round_text = String.◌++◌ o.round_text e.text },
    emit s (
        ChatEvent.text_delta (record {
          message_id = i;
          role = ChatRole.assistant;
          text = e.text;
          provider_id = e.provider_id;
          model = e.model;
        })),
  )
  accept i o s (ChatEvent.tool_call_argument_delta e) =
      let found = streamed_card o.streaming_card_ids e.tool_call_id in
      let (card, s1) = card_or_next env others found s in
      (
        record o { streaming_card_ids = keep_card found o.streaming_card_ids e.tool_call_id card },
        emit s1 (
            ChatEvent.tool_call_argument_delta
              (record e { message_id = i; card_message_id = card })),
      )
  accept i o s (ChatEvent.error e) = (
    record o { stop = Stop.stream_error },
    emit s (
        ChatEvent.error (record {
          message_id = i;
          role = ChatRole.assistant;
          text = e.text;
          provider_id = e.provider_id;
          model = e.model;
          status = ChatMessageStatus.error;
        })),
  )
  accept i o s (ChatEvent.finished e) = (o, s)
  accept i o s (ChatEvent.usage_reported e) =
      (o, emit (record s { last_usage = some e.usage }) (ChatEvent.usage_reported e))
  accept i o s e = (o, emit s e)

  unfoldable pub sink : ℕ → ℕ → RoundOutcome → Service → ChatEvent → RoundOutcome × Service
  sink i generation o s e =
      let s1 = yield_to env others s in
      if s1.generation == generation then accept i o (yield_to env others s1) e else (o, s1)

  unfoldable pub sink_all : ℕ → ℕ → RoundOutcome → Service → List ChatEvent → RoundOutcome × Service
  sink_all i generation o s [] = (o, s)
  sink_all i generation o s (e ∷ es) =
      let (o', s') = sink i generation o s e in sink_all i generation o' s' es

  -- The request of a round; `none` if the generation has passed.
  unfoldable pub build_round_request : Service → ℕ → Option ChatRequest × Service
  build_round_request s generation =
      let config = s.config in
      let s1 = yield_to env others s in
      let tools =
        filter_tools_for_agent_mode env.available_tools []
          (excluded_tools_for_mode s1.config.agent_mode) config.agent_mode in
      if s1.generation == generation
      then (
        some (env.build_request config s1.history tools),
        use_reminder (reminder_path config) (yield_to env others s1),
      )
      else (none, s1)

  unfoldable pub round_stop : Service → ℕ → RoundOutcome → Stop
  round_stop s generation o =
      if s.generation == generation
      then if is_error o.stop
        then Stop.stream_error
        else if is_empty o.requested_tools
        then Stop.model_done
        else Stop.call_tools
      else Stop.aborted

  unfoldable pub end_round :
      ℕ → Option String → RoundOutcome × Service → Option (RoundOutcome × Service)
  end_round generation (some what) (o, s) = none
  end_round generation none (o, s) =
      let s1 = yield_to env others s in some (record o { stop = round_stop s1 generation o }, s1)

  unfoldable pub stream_round :
      Provider → ℕ → ℕ → Option ChatRequest × Service → Option (RoundOutcome × Service)
  stream_round provider i generation (none, s) = some (record no_round { stop = Stop.aborted }, s)
  stream_round provider i generation (some request, s) =
      let out = provider.complete_stream request in
      end_round generation out.thrown (sink_all i generation no_round s out.events)

  -- `none` if the provider throws, which nothing catches.
  unfoldable pub run_one_round : Provider → ℕ → ℕ → Service → Option (RoundOutcome × Service)
  run_one_round provider i generation s =
      stream_round provider i generation (build_round_request s generation)

  -- Whether the usage of the round before calls for a compaction.
  unfoldable pub over_threshold : ChatConfig → Provider → Option TokenUsage → Bool
  over_threshold config provider none = false
  over_threshold config provider (some usage) =
      let window = provider.context_window config.model in
      ltb 0 usage.prompt_tokens
      && (ltb 0 window && leb (config.auto_compact_threshold * window) (usage.prompt_tokens * 1000))

  -- Whether a summarization request is made, during which other threads run.
  unfoldable pub asks_summary : ChatConfig → List ChatMessage → Bool
  asks_summary config h =
      str_eq config.auto_compact_mode "summarize"
      && not ((snapshot_slice h config.auto_compact_keep_last).drop_count == 0)

  unfoldable pub tell_all : Service → List ChatEvent → Service
  tell_all s [] = s
  tell_all s (e ∷ es) = tell_all (tell s e) es

  unfoldable pub auto_compact : ChatConfig → Provider → Service → Service
  auto_compact config provider s =
      let s1 = if asks_summary config s.history then yield_to env others s else s in
      let (h, outcome, events) =
        maybe_auto_compact_history provider.complete_stream (λ h. s1.history) s.history config in
      if config.auto_compact_enabled && over_threshold config provider s.last_usage
      then tell_all (record s1 { history = h }) events
      else s
