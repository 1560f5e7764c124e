-- ===== src/Service/Settings/Effort.antt =====
-- `SetReasoningEffort` of src/chat/chat_service.cpp against the readers of what it sets.
use Prim.Native.String.{String}
use text.Mathlib.Text.{◌==◌}
use text.Mathlib.TextEquality.{eq_iff}
use yac.Common.{◌≡◌, ◌&&◌, Option, none, some, List, [], ◌∷◌, arith, if◌then◌else◌}
use yac.Chat.Config.{ReasoningEffort, ProviderModelSettings}
use yac.Service.State.{Service}
use yac.Service.AppState.{save-config, delete-config}
use yac.Service.Settings.{set_setting, same_setting, find_setting, set_reasoning_effort}

find-set_setting :
    (ms : List ProviderModelSettings) (p m q n : String) (e : Option ReasoningEffort)
    → find_setting (set_setting ms p m e) q n
      ≡ (if p == q && m == n then e else find_setting ms q n)
unfolding find_setting set_setting same_setting
find-set_setting [] p m q n none = ground arith
find-set_setting [] p m q n (some e) = ground arith
find-set_setting (x ∷ xs) p m q n e = ground (
  arith,
  eq_iff p q,
  eq_iff m n,
  eq_iff x.provider_id p,
  eq_iff x.model m,
  eq_iff x.provider_id q,
  eq_iff x.model n,
  find-set_setting xs p m q n e,
)

-- After `SetReasoningEffort` the configuration has that effort for the active model, and for every
-- other model what it had.
pub find-set_reasoning_effort :
    (s : Service) (e : Option ReasoningEffort) (q n : String)
    → find_setting (set_reasoning_effort s e).config.model_settings q n ≡ (
        if s.config.provider_id == q && s.config.model == n
        then e
        else find_setting s.config.model_settings q n)
unfolding set_reasoning_effort
find-set_reasoning_effort s none q n =
    rw delete-config
      (find-set_setting s.config.model_settings s.config.provider_id s.config.model q n none)
find-set_reasoning_effort s (some e) q n =
    rw save-config
      (find-set_setting s.config.model_settings s.config.provider_id s.config.model q n (some e))
