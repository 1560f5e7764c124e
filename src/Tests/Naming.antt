-- ===== src/Tests/Naming.antt =====
-- Names of tools, one of them too long.
use yac.Common.{ℕ, ◌≡◌, refl, some, List, length}
use yac.Common.Text.{codes}
use yac.Mcp.Naming.Sanitize.{
  sanitize_mcp_tool_name, sanitize_component, fnv1a64, fnv_from, truncate_tool_name, hex4,
  hex_rounds, shorten_tool,
}
use yac.Mcp.Naming.Limits.{Named, sanitize_mcp_tool_name-Named}

-- The hash of "a" by the published test vectors.
hashes : fnv1a64 (codes "a") ≡ 0xaf63dc4c8601ec8c
unfolding fnv1a64 fnv_from
hashes = refl

names :
    sanitize_mcp_tool_name (codes "git hub") (codes "list/all")
    ≡ some (codes "mcp_git_hub__list_all")
unfolding sanitize_mcp_tool_name sanitize_component
names = refl

-- A tool whose name is shortened has one byte more than the limit.
shortens : length (shorten_tool (codes "a_tool_whose_name_is_longer_than_forty_bytes")) ≡ 41
unfolding sanitize_component truncate_tool_name hex4 hex_rounds fnv1a64 fnv_from
shortens = refl

sanitize_mcp_tool_name-Named_example :
    (name : List ℕ) × (sanitize_mcp_tool_name (codes "github") (codes "list") ≡ some name)
    × Named name
sanitize_mcp_tool_name-Named_example =
    sanitize_mcp_tool_name-Named 103 (codes "ithub") (codes "list")
