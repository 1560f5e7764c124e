-- ===== src/Service/Settings.antt =====
-- The settings that class ChatService changes while it runs: `SetModel`, `SetProvider` and
-- `SetReasoningEffort` of src/chat/chat_service.cpp.
pub mod Provider
pub mod Effort
use Prim.Native.String.{String}
use text.Mathlib.Text.{◌==◌}
use yac.Common.{ℕ, Bool, true, false, ◌&&◌, Option, none, some, List, [], ◌∷◌, if◌then◌else◌}
use yac.Chat.Message.{ChatRole, ChatMessageStatus}
use yac.Chat.Event.{ChatEvent}
use yac.Chat.Config.{ReasoningEffort, ProviderModelSettings}
use yac.History.{has_non_system_messages}
use yac.Service.State.{Service, emit, emit_event}
use yac.Service.AppState.{
  save_app_state, delete_app_state, save_runtime_selection, last_model_effort_key,
}

unfoldable pub model_changed_event : String → String → ChatEvent
model_changed_event provider_id model =
    ChatEvent.model_changed (record { provider_id = provider_id; model = model })

unfoldable pub set_model : Service → String → Service
unfolding model_changed_event
set_model s model =
    let s1 = record s { config = record s.config { model = model } } in
    let s2 = save_runtime_selection s1 s1.config.provider_id s1.config.profile_id model in
    if s.config.model == model then s else emit s2 (model_changed_event s1.config.provider_id model)

-- The refusal is emitted while the mutex is held.
unfoldable pub set_provider : Service → String → Option Service
unfolding model_changed_event
set_provider s provider_id =
    let s1 = record s { config = record s.config { provider_id = provider_id } } in
    let s2 = save_runtime_selection s1 provider_id s1.config.profile_id s1.config.model in
    if s.config.provider_id == provider_id
    then some s
    else if has_non_system_messages s.history
    then emit_event true s (
        ChatEvent.error (record {
          message_id = 0;
          role = ChatRole.assistant;
          text =
              "Cannot change provider mid-session. Run /clear to start a new conversation, then change provider.";
          provider_id = s.config.provider_id;
          model = s.config.model;
          status = ChatMessageStatus.error;
        }))
    else emit_event false s2 (model_changed_event provider_id s1.config.model)

unfoldable pub same_setting : ProviderModelSettings → String → String → Bool
same_setting m provider_id model = m.provider_id == provider_id && m.model == model

-- The first setting of the active model is changed; without one, an effort is added.
unfoldable pub set_setting :
    List ProviderModelSettings
    → String
    → String
    → Option ReasoningEffort
    → List ProviderModelSettings
unfolding same_setting
set_setting [] provider_id model none = []
set_setting [] provider_id model (some e) =
    record { provider_id = provider_id; model = model; effort = some e } ∷ []
set_setting (m ∷ ms) provider_id model e =
    if same_setting m provider_id model
    then record m { effort = e } ∷ ms
    else m ∷ set_setting ms provider_id model e

unfoldable pub reasoning_effort_to_string : ReasoningEffort → String
reasoning_effort_to_string ReasoningEffort.none = "none"
reasoning_effort_to_string ReasoningEffort.minimal = "minimal"
reasoning_effort_to_string ReasoningEffort.low = "low"
reasoning_effort_to_string ReasoningEffort.medium = "medium"
reasoning_effort_to_string ReasoningEffort.high = "high"
reasoning_effort_to_string ReasoningEffort.x_high = "xhigh"

unfoldable pub set_reasoning_effort : Service → Option ReasoningEffort → Service
unfolding reasoning_effort_to_string
set_reasoning_effort s effort =
    let provider_id = s.config.provider_id in
    let model = s.config.model in
    let settings = set_setting s.config.model_settings provider_id model effort in
    let s1 = record s { config = record s.config { model_settings = settings } } in
    let key = last_model_effort_key provider_id model in
    elim effort [
      | some e ↦ save_app_state s1 key (reasoning_effort_to_string e)
      | none ↦ delete_app_state s1 key
    ]

unfoldable pub find_setting : List ProviderModelSettings → String → String → Option ReasoningEffort
unfolding same_setting
find_setting [] provider_id model = none
find_setting (m ∷ ms) provider_id model =
    if same_setting m provider_id model then m.effort else find_setting ms provider_id model

unfoldable pub configured_reasoning_effort : Service → Option ReasoningEffort
configured_reasoning_effort s =
    find_setting s.config.model_settings s.config.provider_id s.config.model
