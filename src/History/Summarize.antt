-- ===== src/History/Summarize.antt =====
-- Auto-compaction: src/chat/chat_service_compactor.cpp. The summarization request goes to a
-- provider, which is a parameter here: what it streams, and what other threads do to the history
-- while the request runs without the lock.
pub mod Slice
pub mod Missed
use Prim.Native.String.{String}
use Prim.Native.String
use text.Mathlib.Text.{◌==◌ as str_eq}
use yac.Common.{
  ℕ, suc, ◌+◌, ◌-◌, Bool, true, false, ◌&&◌, not, Option, none, some, List, [], ◌∷◌, ◌++◌, ltb, leb,
  if◌then◌else◌, take, drop, ◌==◌,
}
use yac.Chat.Message.{ChatMessage, ChatRole, ChatMessageStatus, non_system, plain}
use yac.Chat.Event.{ChatEvent, CompactReason, ConversationCompactedEvent}
use yac.Chat.Config.{ChatConfig, ChatRequest}
use yac.History.{count_non_system, compact_history}

pub record CompactionOutcome : Type 0 where
  pub performed : Bool
  pub messages_removed : ℕ
  pub failure_reason : String

pub record SliceBoundaries : Type 0 where
  pub leading_system_count : ℕ
  pub drop_count : ℕ
  pub dropped : List ChatMessage

-- What `CompleteStream` does: the events that reach the sink, and then perhaps an exception.
pub record Stream : Type 0 where
  pub events : List ChatEvent
  pub thrown : Option String

abbrev pub no_outcome : CompactionOutcome
no_outcome = record { performed = false; messages_removed = 0; failure_reason = "" }

pub run_truncate : List ChatMessage → ChatConfig → List ChatMessage × CompactionOutcome
run_truncate h config =
    let before = count_non_system h in
    let keep_last = config.auto_compact_keep_last in
    if leb before keep_last then (h, no_outcome) else (
      compact_history h keep_last,
      record { performed = true; messages_removed = before - keep_last; failure_reason = "" },
    )

pub role_label : ChatRole → String
role_label ChatRole.system = "System"
role_label ChatRole.user = "User"
role_label ChatRole.assistant = "Assistant"
role_label ChatRole.tool = "Tool"

infixr 65 ◌<>◌
abbrev ◌<>◌ : String → String → String
s <> t = String.◌++◌ s t

pub render_slice_for_summary : List ChatMessage → String
unfolding role_label
render_slice_for_summary [] = ""
render_slice_for_summary (m ∷ ms) =
    role_label m.role
    <> ": "
    <> m.content
    <> (if str_eq m.tool_name "" then "" else " [tool=" <> m.tool_name <> "]")
    <> "\n"
    <> render_slice_for_summary ms

pub leading_system : List ChatMessage → ℕ
leading_system [] = 0
leading_system (m ∷ ms) = if non_system m then 0 else suc (leading_system ms)

-- The loop that collects the slice: `consumed` messages of `drop_count` are in it.
pub collect : ℕ → ℕ → List ChatMessage → List ChatMessage
collect consumed drop_count [] = []
collect consumed drop_count (m ∷ ms) =
    let rest = collect (if non_system m then consumed + 1 else consumed) drop_count ms in
    if ltb consumed drop_count then (if non_system m then m ∷ rest else rest) else []

pub snapshot_slice : List ChatMessage → ℕ → SliceBoundaries
snapshot_slice h keep_last =
    let leading = leading_system h in
    let n = count_non_system h in
    if leb n keep_last
    then record { leading_system_count = leading; drop_count = 0; dropped = [] }
    else record {
      leading_system_count = leading;
      drop_count = n - keep_last;
      dropped = collect 0 (n - keep_last) (drop leading h);
    }

-- The second copying loop.
pub keep_rest : ℕ → ℕ → List ChatMessage → List ChatMessage
keep_rest skipped drop_count [] = []
keep_rest skipped drop_count (m ∷ ms) =
    let hit = non_system m && ltb skipped drop_count in
    let rest = keep_rest (if hit then skipped + 1 else skipped) drop_count ms in
    if hit then rest else m ∷ rest

abbrev pub summary_note : String → ChatMessage
summary_note text =
    plain 0 ChatRole.system ChatMessageStatus.complete ("[Earlier conversation summary]\n" <> text)

pub replace_slice_with_summary : List ChatMessage → ℕ → ℕ → String → List ChatMessage
replace_slice_with_summary h leading drop_count text =
    take leading h ++ (summary_note text ∷ keep_rest 0 drop_count (drop leading h))

summary_system_prompt : String
summary_system_prompt =
    "You compact prior conversation into a faithful, concise summary. "
    <> "Preserve user intent, decisions, named entities, file paths, and "
    <> "open threads. Omit pleasantries. Output a single paragraph; do not "
    <> "use lists or headings."

pub summary_request : String → List ChatMessage → ChatRequest
unfolding summary_system_prompt
summary_request model dropped = record {
  provider_id = "openai-compatible";
  model = model;
  responses_instructions = none;
  session_id = none;
  messages =
      plain 0 ChatRole.system ChatMessageStatus.complete summary_system_prompt
      ∷ plain 0 ChatRole.user ChatMessageStatus.complete
          ("Summarize the following conversation slice:\n\n" <> render_slice_for_summary dropped)
      ∷ [];
  tools = [];
  temperature = 100;
  reasoning_effort = none;
  stream = false;
}

-- The variables that the sink of the summarization request captures.
pub record SummarySink : Type 0 where
  pub buffered : String
  pub errored : Bool
  pub failure_reason : String

pub summary_sink : SummarySink → ChatEvent → SummarySink
summary_sink s (ChatEvent.text_delta d) = record s { buffered = s.buffered <> d.text }
summary_sink s (ChatEvent.error e) = record s { errored = true; failure_reason = e.text }
summary_sink s _ = s

pub summary_sink_all : SummarySink → List ChatEvent → SummarySink
summary_sink_all s [] = s
summary_sink_all s (e ∷ es) = summary_sink_all (summary_sink s e) es

-- The summary, if there is one, and the failure reason.
pub run_summarization_call :
    (ChatRequest → Stream) → String → List ChatMessage → Option String × String
run_summarization_call complete_stream model dropped =
    let out = complete_stream (summary_request model dropped) in
    let s =
      summary_sink_all (record { buffered = ""; errored = false; failure_reason = "" })
        out.events in
    elim out.thrown [
      | some what ↦ (none, what)
      | none ↦
          if s.errored
          then (none, s.failure_reason)
          else if str_eq s.buffered ""
          then (none, "summarization returned empty text")
          else (some s.buffered, s.failure_reason)
    ]

-- Without a summary the history is truncated, and the reason is passed on.
pub summarize_fallback :
    List ChatMessage → ChatConfig → String → List ChatMessage × CompactionOutcome
summarize_fallback now config reason =
    let (h', outcome) = run_truncate now config in
    (
      h',
      record outcome {
        failure_reason = if str_eq reason "" then "summarization failed" else reason;
      },
    )

-- The slice is taken anew, since the history may have changed during the request.
pub summarize_replace :
    List ChatMessage → ChatConfig → String → List ChatMessage × CompactionOutcome
summarize_replace now config text =
    let fresh = snapshot_slice now config.auto_compact_keep_last in
    if fresh.drop_count == 0 then (now, no_outcome) else (
      replace_slice_with_summary now fresh.leading_system_count fresh.drop_count text,
      record { performed = true; messages_removed = fresh.drop_count; failure_reason = "" },
    )

pub summarize_finish :
    List ChatMessage → ChatConfig → Option String × String → List ChatMessage × CompactionOutcome
summarize_finish now config (none, reason) = summarize_fallback now config reason
summarize_finish now config (some text, reason) = summarize_replace now config text

-- `meanwhile` is what other threads do to the history during the request.
pub run_summarize :
    (ChatRequest → Stream)
    → (List ChatMessage → List ChatMessage)
    → List ChatMessage
    → ChatConfig
    → List ChatMessage × CompactionOutcome
run_summarize complete_stream meanwhile h config =
    let boundaries = snapshot_slice h config.auto_compact_keep_last in
    if boundaries.drop_count == 0
    then (h, no_outcome)
    else summarize_finish (meanwhile h) config
        (run_summarization_call complete_stream config.model boundaries.dropped)

-- The new history, the outcome and the events emitted.
unfoldable pub maybe_auto_compact_history :
    (ChatRequest → Stream)
    → (List ChatMessage → List ChatMessage)
    → List ChatMessage
    → ChatConfig
    → List ChatMessage × CompactionOutcome × List ChatEvent
unfolding run_summarize run_truncate
maybe_auto_compact_history complete_stream meanwhile h config =
    let (h', outcome) =
      if str_eq config.auto_compact_mode "summarize"
      then run_summarize complete_stream meanwhile h config
      else run_truncate h config in
    (
      h',
      outcome,
      if outcome.performed
          then ChatEvent.conversation_compacted
              (record { reason = CompactReason.auto; messages_removed = outcome.messages_removed })
            ∷ []
          else [],
    )
