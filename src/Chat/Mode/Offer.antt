-- ===== src/Chat/Mode/Offer.antt =====
-- What the tool filter of a mode offers to the model.
use Prim.Native.String.{String}
use text.Mathlib.Text.{◌==◌}
use text.Mathlib.TextEquality.{eq_iff}
use yac.Common.{◌≡◌, refl, subst, true, false, List, [], ◌∷◌, arith, Bool-cases, inl, inr}
use yac.Chat.Message.{ToolDefinition}
use yac.Chat.Mode.{
  AgentMode, contains, excluded_tools_for_mode, is_tool_allowed_for_mode,
  filter_tools_for_agent_mode,
}

abbrev pub All {ℓ κ} : {A : Type ℓ} → (A → Type κ) → List A → Type κ
All P [] = Unit
All P (x ∷ xs) = P x × All P xs

-- What holds of every name of a set holds of a name that the set contains.
contains_elim :
    (P : String → Type 0) (xs : List String) (name : String)
    → All P xs
    → contains xs name ≡ true
    → P name
unfolding contains
contains_elim P [] name a h = absurd (cc)
contains_elim P (x ∷ xs) name a h = elim (Bool-cases (x == name)) [
  | inl e ↦ subst P ((eq_iff x name).0 e) a.0
  | inr e ↦ contains_elim P xs name a.1 (rw e at h)
]

-- The names that a mode excludes are names that it does not allow.
pub excluded_not_allowed :
    (mode : AgentMode) (name : String)
    → contains (excluded_tools_for_mode mode) name ≡ true
    → is_tool_allowed_for_mode mode name ≡ false
unfolding excluded_tools_for_mode is_tool_allowed_for_mode contains
excluded_not_allowed AgentMode.build name h = absurd (cc)
excluded_not_allowed AgentMode.plan name h =
    contains_elim (λ n. is_tool_allowed_for_mode AgentMode.plan n ≡ false)
      (excluded_tools_for_mode AgentMode.plan) name (refl, (refl, (refl, (refl, tt)))) h

abbrev pub IsOffered : AgentMode → List String → ToolDefinition → Type 0
IsOffered mode static_excluded d =
    (contains static_excluded d.name ≡ false) × (is_tool_allowed_for_mode mode d.name ≡ true)

-- Every tool that passes the filter is allowed in the mode and not excluded for good, whatever set
-- of names the mode excludes besides.
pub filter-All :
    (ds : List ToolDefinition) (static_excluded mode_excluded : List String) (mode : AgentMode)
    → All
        (IsOffered mode static_excluded)
        (filter_tools_for_agent_mode ds static_excluded mode_excluded mode)
unfolding filter_tools_for_agent_mode
filter-All [] s m mode = tt
filter-All (d ∷ ds) s m mode = ground (arith, filter-All ds s m mode)

-- The mode's own set of excluded names takes nothing more away than the mode's rule does, so the
-- two filters that the chat service combines offer what the rule alone offers.
pub filter-excluded_redundant :
    (ds : List ToolDefinition) (static_excluded : List String) (mode : AgentMode)
    → filter_tools_for_agent_mode ds static_excluded (excluded_tools_for_mode mode) mode
      ≡ filter_tools_for_agent_mode ds static_excluded [] mode
unfolding filter_tools_for_agent_mode contains
filter-excluded_redundant [] s mode = refl
filter-excluded_redundant (d ∷ ds) s mode =
    ground (arith, filter-excluded_redundant ds s mode, excluded_not_allowed mode d.name)
