-- ===== src/Service/Settings/Provider.antt =====
-- When `SetProvider` of src/chat/chat_service.cpp returns.
use Prim.Native.String.{String}
use text.Mathlib.Text.{◌==◌}
use text.Mathlib.TextEquality.{eq_iff}
use yac.Common.{
  ◌≡◌, refl, ◌⊎◌, ◌≢◌, inl, inr, true, false, Bool-cases, none, some, List, [], ◌∷◌, arith,
}
use yac.Chat.Message.{ChatMessage}
use yac.History.{has_non_system_messages, conversation}
use yac.Service.State.{Service, emit_event}
use yac.Service.AppState.{selection-config}
use yac.Service.Settings.{set_provider}

has_non_system-conversation :
    (h : List ChatMessage)
    → (has_non_system_messages h ≡ false → conversation h ≡ [])
      × (conversation h ≡ [] → has_non_system_messages h ≡ false)
unfolding has_non_system_messages conversation
has_non_system-conversation [] = (λ _. refl, λ _. refl)
has_non_system-conversation (m ∷ ms) = ground (arith, has_non_system-conversation ms)

-- `SetProvider` returns, with the provider set, if the provider is the one already set or the
-- history has no message besides system messages, and in no other case.
pub set_provider_returns :
    (s : Service) (p : String)
    → ((t : Service) × (set_provider s p ≡ some t)
        × (t.config.provider_id ≡ p)
        × ((s.config.provider_id ≡ p) ⊎ (conversation s.history ≡ [])))
      ⊎ ((set_provider s p ≡ none) × (s.config.provider_id ≢ p) × (conversation s.history ≢ []))
unfolding set_provider emit_event
set_provider_returns s p = elim (Bool-cases (s.config.provider_id == p)) [
  | inl same ↦
      let is_p = (eq_iff s.config.provider_id p).0 same in rw same (inl (s, refl, is_p, inl is_p))
  | inr other ↦ elim (Bool-cases (has_non_system_messages s.history)) [
    | inl talk ↦ rw (other, talk) (inr (refl, not_p other, left talk))
    | inr quiet ↦
        rw (other, quiet)
          (inl
            (_, refl, rw selection-config, inr ((has_non_system-conversation s.history).0 quiet)))
  ]
]
  where
    not_p : s.config.provider_id == p ≡ false → s.config.provider_id ≢ p
    not_p other e = absurd (ground (arith, (eq_iff s.config.provider_id p).1 e))

    left : has_non_system_messages s.history ≡ true → conversation s.history ≢ []
    left talk none_left =
        absurd (ground (arith, (has_non_system-conversation s.history).1 none_left))
