-- ===== src/Tests/State.antt =====
-- The history, the approvals and the settings at concrete inputs.
use text.Mathlib.Text.{◌==◌ as str_eq}
use yac.Common.{
  ◌≡◌, ◌≢◌, ◌<◌, ◌≤◌, refl, ◌⊎◌, ◌++◌, ◌+◌, ◌-◌, ◌&&◌, ◌||◌, true, false, some, List, [], ◌∷◌,
  arith, none, length, drop, if◌then◌else◌,
}
use yac.Chat.Message.{ChatMessage, ToolDefinition}
use yac.Chat.Mode.{AgentMode, excluded_tools_for_mode, filter_tools_for_agent_mode}
use yac.Chat.Mode.Offer.{All, IsOffered, filter-All, filter-excluded_redundant}
use yac.Chat.Config.{ChatRequest, ReasoningEffort}
use yac.History.{
  compact_history, compact, conversation, system_messages, compaction_note, count_non_system,
}
use yac.History.Truncate.{
  conversation-compact_history, Noted, system_messages-compact_history, compact_reports,
  compact_idem,
}
use yac.History.Summarize.{Stream, replace_slice_with_summary, snapshot_slice, run_summarize}
use yac.History.Summarize.Slice.{slice_append_compacted, conversation-run_summarize}
use yac.Approvals.{find, wait_ready, wait_take, sentence, request_approval}
use yac.History.Summarize.Missed.{run_summarize_misses}
use yac.Approvals.Names.{IsValid}
use yac.Approvals.Decisions
use yac.Approvals.Decisions.{
  run-IsValid, request_run_wait, run, verdict, open_verdict, settled, Untaken,
}
use yac.Service.State.{Service}
use yac.Service.AppState.{saved_row, save_runtime_selection, row-save_runtime_selection}
use yac.Service.Settings.{set_provider, set_reasoning_effort, find_setting}
use yac.Service.Settings.Provider.{set_provider_returns}
use yac.Service.Settings.Effort.{find-set_reasoning_effort}
use yac.Service.Calls.{Call, run_calls}
use yac.Service.Quiet.{Quiet}
use yac.Service.Quiet.Calls.{run_calls-Quiet}
use yac.Tests.Data.{env, busy, config, history, said, approvals}

conversation-compact_history_example :
    conversation (compact_history history 1)
    ≡ drop (length (conversation history) - 1) (conversation history)
conversation-compact_history_example = conversation-compact_history history 1

system_messages-compact_history_example :
    (count_non_system history ≤ 1 × (compact_history history 1 ≡ history))
    ⊎ (1 < count_non_system history
        × Noted history
            (compaction_note (length (conversation history) - 1))
            (system_messages (compact_history history 1)))
system_messages-compact_history_example = system_messages-compact_history history 1

compact_reports_example :
    count_non_system (compact history 1).0 + (compact history 1).1 ≡ count_non_system history
compact_reports_example = compact_reports history 1

compact_idem_example : compact (compact history 1).0 1 ≡ ((compact history 1).0, 0)
compact_idem_example = compact_idem history 1

slice_append_compacted_example :
    ((snapshot_slice history 1).dropped ++ conversation (compact_history history 1)
      ≡ conversation history)
    × ((snapshot_slice history 1).dropped
          ++ conversation (
              replace_slice_with_summary history
                (snapshot_slice history 1).leading_system_count
                (snapshot_slice history 1).drop_count
                "They greet each other.")
        ≡ conversation history)
slice_append_compacted_example = slice_append_compacted history 1 "They greet each other."

-- A provider that streams no text, and a thread that adds a message during the request.
abbrev silent : ChatRequest → Stream
silent r = record { events = []; thrown = none }

abbrev one_more : List ChatMessage → List ChatMessage
one_more h = h ++ said 9 "late" ∷ []

long : 1 < length (conversation history)
unfolding conversation
long = omega arith

conversation-run_summarize_example :
    conversation (run_summarize silent one_more history config).0
    ≡ drop (length (conversation (one_more history)) - 1) (conversation (one_more history))
conversation-run_summarize_example = conversation-run_summarize silent one_more history config long

approvals-IsValid : IsValid approvals
approvals-IsValid = record { below = tt; distinct = tt }

abbrev calls : List Decisions.Call
calls =
    Decisions.Call.request "call-2" "grep" "{}"
    ∷ Decisions.Call.resolve "tool-7" true
    ∷ Decisions.Call.cancels
    ∷ []

run-IsValid_example : IsValid (run approvals calls)
run-IsValid_example = run-IsValid approvals calls approvals-IsValid

request_run_wait_example :
    let k = (request_approval approvals "call-1" "bash" "{}").0 in
    let end = run (request_approval approvals "call-1" "bash" "{}").1 calls in
    let v = verdict k open_verdict calls in
    (wait_ready end k false ≡ settled v || false)
    × ((wait_take end k false).0 ≡ sentence v.approved v.response false)
    × (find k (wait_take end k false).1.pending ≡ none)
request_run_wait_example =
    request_run_wait approvals "call-1" "bash" "{}" calls false approvals-IsValid tt

set_provider_returns_example :
    ((t : Service) × (set_provider busy "other" ≡ some t)
      × (t.config.provider_id ≡ "other")
      × ((busy.config.provider_id ≡ "other") ⊎ (conversation busy.history ≡ [])))
    ⊎ ((set_provider busy "other" ≡ none)
        × (busy.config.provider_id ≢ "other")
        × (conversation busy.history ≢ []))
set_provider_returns_example = set_provider_returns busy "other"

find-set_reasoning_effort_example :
    find_setting
      (set_reasoning_effort busy (some ReasoningEffort.high)).config.model_settings
      "openai"
      "gpt"
    ≡ (if str_eq busy.config.provider_id "openai" && str_eq busy.config.model "gpt"
        then some ReasoningEffort.high
        else find_setting busy.config.model_settings "openai" "gpt")
find-set_reasoning_effort_example =
    find-set_reasoning_effort busy (some ReasoningEffort.high) "openai" "gpt"

row-save_runtime_selection_example :
    saved_row (save_runtime_selection busy "zai" none "glm") "last_model" ≡ (
      if str_eq "last_model" "last_model"
      then some "glm"
      else if str_eq "last_profile_id" "last_model"
      then none
      else if str_eq "last_provider_id" "last_model"
      then some "zai"
      else saved_row busy "last_model")
row-save_runtime_selection_example =
    row-save_runtime_selection busy "zai" "glm" none "last_model" (_, refl)

run_calls-Quiet_example :
    Quiet busy (run_calls env busy (Call.inject "more" ∷ Call.cancels ∷ Call.clear_reset ∷ []))
run_calls-Quiet_example =
    run_calls-Quiet env busy (Call.inject "more" ∷ Call.cancels ∷ Call.clear_reset ∷ [])

abbrev tools : List ToolDefinition
tools =
    record { name = "bash"; description = ""; parameters_schema_json = "{}" }
    ∷ record { name = "grep"; description = ""; parameters_schema_json = "{}" }
    ∷ []

filter-All_example :
    All
      (IsOffered AgentMode.plan ("glob" ∷ []))
      (filter_tools_for_agent_mode tools ("glob" ∷ []) [] AgentMode.plan)
filter-All_example = filter-All tools ("glob" ∷ []) [] AgentMode.plan

filter-excluded_redundant_example :
    filter_tools_for_agent_mode tools [] (excluded_tools_for_mode AgentMode.plan) AgentMode.plan
    ≡ filter_tools_for_agent_mode tools [] [] AgentMode.plan
filter-excluded_redundant_example = filter-excluded_redundant tools [] AgentMode.plan

run_summarize_misses_example :
    length (snapshot_slice history 1).dropped
      + length
          (conversation (run_summarize silent (λ now. now ++ said 9 "late" ∷ []) history config).0)
      + length (conversation (said 9 "late" ∷ []))
    ≡ length (conversation (history ++ said 9 "late" ∷ []))
run_summarize_misses_example = run_summarize_misses silent history (said 9 "late" ∷ []) config long
