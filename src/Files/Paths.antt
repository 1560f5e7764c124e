-- ===== src/Files/Paths.antt =====
-- `ResolvePath` and `DisplayPath` of src/tool_call/workspace_filesystem.cpp: which paths a tool may
-- touch. Whatever std::filesystem's functions are, a path that is resolved lies in the workspace.
use yac.Common.{
  ap, ◌∙◌, append_assoc, ◌≡◌, refl, sym, subst, ◌⊎◌, inl, inr, Bool, true, false, ◌&&◌, ◌||◌, not,
  Option, none, some, [], ◌∷◌, ◌++◌, if◌then◌else◌, ◌==◌, arith, Bool-cases,
}
use yac.Common.Text.{same, same_iff}
use yac.Edits.{Bytes}
use yac.Edits.Find.{begins_with, begins_with→append}
use yac.Files.{
  Outcome, returns, throws, outside_workspace, unable_to_resolve, unable_to_resolve_root,
  outside_by_symlink,
}

-- std::filesystem: absolute with lexically_normal, is_relative, operator/, weakly_canonical and
-- relative, the last two nothing on an error.
pub record PathLibrary : Type 0 where
  pub normal : Bytes → Bytes
  pub is_relative : Bytes → Bool
  pub append : Bytes → Bytes → Bytes
  pub canonical : Bytes → Option Bytes
  pub relative : Bytes → Bytes → Option Bytes

abbrev pub ends_in_separator : Bytes → Bool
ends_in_separator [] = false
ends_in_separator (c ∷ []) = c == 47
ends_in_separator (c ∷ d ∷ path) = ends_in_separator (d ∷ path)

abbrev pub with_separator : Bytes → Bytes
with_separator root = if ends_in_separator root then root else root ++ (47 ∷ [])

-- value == root || value.starts_with(with_separator)
unfoldable pub lies_under : Bytes → Bytes → Bool
lies_under root value = same value root || begins_with value (with_separator root)

module _ (fs : PathLibrary) where
  abbrev pub candidate : Bytes → Bytes → Bytes
  candidate root path = fs.normal (if fs.is_relative path then fs.append root path else path)

  -- The symlink-aware gate, from the two canonical paths.
  abbrev pub real_gate : Bytes → Option Bytes → Option Bytes → Outcome Bytes
  real_gate value none real_root = throws unable_to_resolve
  real_gate value (some real_value) none = throws unable_to_resolve_root
  real_gate value (some real_value) (some real_root) =
      if lies_under real_root real_value then returns value else throws outside_by_symlink

  unfoldable pub resolve_path : Bytes → Bytes → Outcome Bytes
  resolve_path root path =
      if lies_under root (candidate root path)
      then real_gate (candidate root path) (fs.canonical (candidate root path)) (fs.canonical root)
      else throws outside_workspace

  unfoldable pub display_path : Bytes → Bytes → Bytes
  display_path root path = elim (fs.relative (fs.normal path) root) [
    | none ↦ fs.normal path
    | some relative ↦
        if not (same relative []) && not (begins_with relative (46 ∷ 46 ∷ []))
        then relative
        else fs.normal path
  ]

-- The root, or a path below it: a separator stands behind the name of the root.
pub Under : Bytes → Bytes → Type 0
Under root value =
    (value ≡ root)
    ⊎ ((base : Bytes) × (rest : Bytes) × (value ≡ base ++ (47 ∷ rest))
        × ((root ≡ base) ⊎ (root ≡ base ++ (47 ∷ []))))

base_of :
    (root : Bytes) → ends_in_separator root ≡ true → (base : Bytes) × (root ≡ base ++ (47 ∷ []))
base_of [] h = ground arith
base_of (c ∷ []) h = ([], ground arith)
base_of (c ∷ d ∷ path) h = let (base, e) = base_of (d ∷ path) h in (c ∷ base, ap (λ l. c ∷ l) e)

below-Under :
    (root value : Bytes) → begins_with value (with_separator root) ≡ true → Under root value
unfolding Under
below-Under root value h = elim (Bool-cases (ends_in_separator root)) [
  | inl slash ↦
      let (base, e) = base_of root slash in
      let (rest, split) = begins_with→append value root (ground (arith, h, slash)) in
      inr (base, rest, split ∙ ap (λ l. l ++ rest) e ∙ append_assoc base (47 ∷ []) rest, inr e)
  | inr plain ↦
      let (rest, split) = begins_with→append value (root ++ (47 ∷ [])) (ground (arith, h, plain)) in
      inr (root, rest, split ∙ append_assoc root (47 ∷ []) rest, inl refl)
]

lies_under-Under : (root value : Bytes) → lies_under root value ≡ true → Under root value
unfolding lies_under Under
lies_under-Under root value h = elim (Bool-cases (same value root)) [
  | inl e ↦ inl ((same_iff value root).0 e)
  | inr e ↦ below-Under root value (ground (arith, h, e))
]

-- Where a resolved path lies: in the workspace as it is written, and with all links followed.
pub record Inside (fs : PathLibrary) (root value : Bytes) : Type 0 where
  pub by_name : Under root value
  pub real_value : Bytes
  pub real_root : Bytes
  pub value_is : fs.canonical value ≡ some real_value
  pub root_is : fs.canonical root ≡ some real_root
  pub by_link : Under real_root real_value

module _ (fs : PathLibrary) (root value : Bytes) where
  real_gate-Inside :
      {r : Bytes} (a b : Option Bytes)
      → fs.canonical value ≡ a
      → fs.canonical root ≡ b
      → lies_under root value ≡ true
      → real_gate fs value a b ≡ returns r
      → (r ≡ value) × Inside fs root value
  real_gate-Inside none b ea eb h e = ground arith
  real_gate-Inside (some x) none ea eb h e = ground arith
  real_gate-Inside {r} (some x) (some y) ea eb h e = elim (Bool-cases (lies_under y x)) [
    | inl under ↦
        let kept : r ≡ value = ground (arith, e, under) in
        (
          kept,
          record {
            by_name = lies_under-Under root value h;
            real_value = x;
            real_root = y;
            value_is = ea;
            root_is = eb;
            by_link = lies_under-Under y x under;
          },
        )
    | inr out ↦ absurd (ground (arith, e, out))
  ]

-- A path that `ResolvePath` returns is the workspace's root or a path below it, as it is written
-- and with all symbolic links followed.
pub resolve_path-Inside :
    (fs : PathLibrary) (root path : Bytes) {r : Bytes}
    → resolve_path fs root path ≡ returns r
    → Inside fs root r
unfolding resolve_path
resolve_path-Inside fs root path {r} e =
    let value = candidate fs root path in
    elim (Bool-cases (lies_under root value)) [
      | inl h ↦
          let kept =
            real_gate-Inside fs root value (fs.canonical value) (fs.canonical root) refl refl h
              (ground (arith, e, h)) in
          subst (Inside fs root) (sym kept.0) kept.1
      | inr h ↦ absurd (ground (arith, e, h))
    ]
