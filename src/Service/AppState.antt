-- ===== src/Service/AppState.antt =====
-- The key-value rows that the service saves: `SaveRuntimeAppState`, `DeleteRuntimeAppState` and
-- `SaveRuntimeSelection` of src/chat/chat_service.cpp. A row's time is left out. A store that
-- throws is logged and otherwise ignored, so it is a store that keeps its rows.
use Prim.Native.String.{String}
use Prim.Native.String
use text.Mathlib.Text.{◌==◌}
use text.Mathlib.TextEquality.{eq_iff}
use yac.Common.{◌≡◌, refl, ◌∙◌, Option, none, some, List, [], ◌∷◌, arith, if◌then◌else◌}
use yac.Service.State.{Service}

pub put_row : String → String → List (String × String) → List (String × String)
put_row k v [] = (k, v) ∷ []
put_row k v ((j, w) ∷ m) = if j == k then (k, v) ∷ m else (j, w) ∷ put_row k v m

pub delete_row : String → List (String × String) → List (String × String)
delete_row k [] = []
delete_row k ((j, w) ∷ m) = let rest = delete_row k m in if j == k then rest else (j, w) ∷ rest

pub row : String → List (String × String) → Option String
row k [] = none
row k ((j, w) ∷ m) = if j == k then some w else row k m

unfoldable pub save_app_state : Service → String → String → Service
save_app_state s k v = elim s.app_state [
  | none ↦ s
  | some m ↦ record s { app_state = some (put_row k v m) }
]

unfoldable pub delete_app_state : Service → String → Service
delete_app_state s k = elim s.app_state [
  | none ↦ s
  | some m ↦ record s { app_state = some (delete_row k m) }
]

unfoldable pub save_runtime_selection : Service → String → Option String → String → Service
save_runtime_selection s provider_id profile_id model =
    let s1 = save_app_state s "last_provider_id" provider_id in
    let s2 : Service = elim profile_id [
      | some p ↦ save_app_state s1 "last_profile_id" p
      | none ↦ delete_app_state s1 "last_profile_id"
    ] in
    save_app_state s2 "last_model" model

pub last_model_effort_key : String → String → String
last_model_effort_key provider_id model =
    String.◌++◌ "last_model_effort:" (String.◌++◌ provider_id (String.◌++◌ ":" model))

pub save-config : (s : Service) (k v : String) → (save_app_state s k v).config ≡ s.config
unfolding save_app_state
save-config s k v = ground arith

pub delete-config : (s : Service) (k : String) → (delete_app_state s k).config ≡ s.config
unfolding delete_app_state
delete-config s k = ground arith

pub selection-config :
    (s : Service) (p : String) (q : Option String) (m : String)
    → (save_runtime_selection s p q m).config ≡ s.config
unfolding save_runtime_selection
selection-config s p (some q) m = save-config _ _ _ ∙ save-config _ _ _ ∙ save-config s _ _
selection-config s p none m = save-config _ _ _ ∙ delete-config _ _ ∙ save-config s _ _

pub row-put_row :
    (k j v : String) (m : List (String × String))
    → row j (put_row k v m) ≡ (if k == j then some v else row j m)
unfolding row put_row
row-put_row k j v [] = refl
row-put_row k j v ((i, w) ∷ m) =
    ground (arith, eq_iff k j, eq_iff i k, eq_iff i j, row-put_row k j v m)

pub row-delete_row :
    (k j : String) (m : List (String × String))
    → row j (delete_row k m) ≡ (if k == j then none else row j m)
unfolding row delete_row
row-delete_row k j [] = ground arith
row-delete_row k j ((i, w) ∷ m) =
    ground (arith, eq_iff k j, eq_iff i k, eq_iff i j, row-delete_row k j m)

-- The row of a store; without a store there is none.
pub saved_row : Service → String → Option String
saved_row s k = elim s.app_state [ none ↦ none | some m ↦ row k m ]

abbrev pub HasStore : Service → Type 0
HasStore s = (m : List (String × String)) × (s.app_state ≡ some m)

saved_row-save :
    (s : Service) (k j v : String)
    → HasStore s
    → (saved_row (save_app_state s k v) j ≡ (if k == j then some v else saved_row s j))
      × HasStore (save_app_state s k v)
unfolding saved_row save_app_state
saved_row-save s k j v (m, e) = (ground (arith, row-put_row k j v m), (put_row k v m, ground arith))

saved_row-delete :
    (s : Service) (k j : String)
    → HasStore s
    → (saved_row (delete_app_state s k) j ≡ (if k == j then none else saved_row s j))
      × HasStore (delete_app_state s k)
unfolding saved_row delete_app_state
saved_row-delete s k j (m, e) =
    (ground (arith, row-delete_row k j m), (delete_row k m, ground arith))

-- What `SaveRuntimeSelection` leaves under the three keys of the runtime selection, if there is a
-- store: the provider, the profile or nothing, and the model; every other row stays.
pub row-save_runtime_selection :
    (s : Service) (provider_id model : String) (profile_id : Option String) (j : String)
    → HasStore s
    → saved_row (save_runtime_selection s provider_id profile_id model) j ≡ (
        if "last_model" == j
        then some model
        else if "last_profile_id" == j
        then profile_id
        else if "last_provider_id" == j
        then some provider_id
        else saved_row s j)
unfolding save_runtime_selection
row-save_runtime_selection s provider_id model (some p) j h =
    let s1 = saved_row-save s "last_provider_id" j provider_id h in
    let t1 = save_app_state s "last_provider_id" provider_id in
    let s2 = saved_row-save t1 "last_profile_id" j p s1.1 in
    let t2 = save_app_state t1 "last_profile_id" p in
    let s3 = saved_row-save t2 "last_model" j model s2.1 in rw (s3.0, s2.0, s1.0)
row-save_runtime_selection s provider_id model none j h =
    let s1 = saved_row-save s "last_provider_id" j provider_id h in
    let t1 = save_app_state s "last_provider_id" provider_id in
    let s2 = saved_row-delete t1 "last_profile_id" j s1.1 in
    let t2 = delete_app_state t1 "last_profile_id" in
    let s3 = saved_row-save t2 "last_model" j model s2.1 in rw (s3.0, s2.0, s1.0)
