-- ===== src/Edits.antt =====
-- src/tool_call/edit_replacers.cpp and edit_tool_executor.cpp: how the edit tool finds the text
-- to replace and what it shows of the change. A text is the list of its bytes, as it is walked byte
-- by byte; a thrown std::runtime_error is a value of `EditError`.
pub mod Find
pub mod Replace
pub mod Lines
pub mod Windows
pub mod Diff
use Prim.Native.Nat.{◌≤◌}
use yac.Common.{ℕ, List, [], ◌∷◌, ◌++◌, ◌≡◌, Bool, true, false, Option, some}

abbrev pub Bytes : Type 0
Bytes = List ℕ

-- The errors that the edit tool throws.
pub data EditError : Type 0 where
  multiple_matches old_string_not_found : EditError
  empty_old_string identical_strings file_not_found binary_file no_match : EditError

pub data Result {ℓ} (A : Type ℓ) : Type ℓ where
  ok : A → Result A
  throws : EditError → Result A

infixl 1 ◌>>=◌
abbrev pub ◌>>=◌ {ℓ κ} : {A : Type ℓ} {B : Type κ} → Result A → (A → Result B) → Result B
ok a >>= f = f a
throws e >>= f = throws e
