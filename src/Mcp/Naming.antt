-- ===== src/Mcp/Naming.antt =====
-- Names of MCP tools: `IsMcpToolName` and `SplitMcpToolName` of src/mcp/tool_naming.cpp. Positions
-- count bytes, as in the source.
pub mod Sanitize
pub mod Limits
use Prim.Native.String.{String, len, slice}
use text.Mathlib.Text.{starts_with, find?}
use yac.Common.{◌+◌, Bool, true, false, Option, none, some, if◌then◌else◌, leb, ◌==◌, ◌||◌}

abbrev pub has_value {ℓ} : {A : Type ℓ} → Option A → Bool
has_value none = false
has_value (some a) = true

unfoldable pub is_mcp_tool_name : String → Bool
is_mcp_tool_name name = if starts_with name "mcp_" then has_value (find? name "__") else false

-- What follows the prefix is split at its first separator.
unfoldable pub split_mcp_tool_name : String → Option (String × String)
split_mcp_tool_name name =
    let rest = slice name 4 (len name) in
    if is_mcp_tool_name name
    then elim (find? rest "__") [
      | none ↦ none
      | some at ↦
          if at == 0 || leb (len rest) (at + 2)
          then none
          else some (slice rest 0 at, slice rest (at + 2) (len rest))
    ]
    else none
