-- ===== src/Mcp/Naming/Sanitize.antt =====
-- How the name of an MCP tool is built: `SanitizeMcpToolName` of src/mcp/tool_naming.cpp, over
-- bytes. A name that throws std::invalid_argument is none.
use Prim.Native.Nat.{bit_xor}
use yac.Common.{
  ℕ, zero, suc, ◌+◌, ◌*◌, ◌/◌, ◌%◌, ◌^◌, Bool, ◌&&◌, ◌||◌, Option, none, some, List, [], ◌∷◌, ◌++◌,
  ltb, leb, ◌==◌, if◌then◌else◌, length, take,
}

abbrev pub server_id_max : ℕ
server_id_max = 16

abbrev pub tool_name_max : ℕ
tool_name_max = 40

abbrev pub truncated_tool_prefix_length : ℕ
truncated_tool_prefix_length = 35

abbrev pub is_alnum : ℕ → Bool
is_alnum ch = (leb 48 ch && leb ch 57) || ((leb 65 ch && leb ch 90) || (leb 97 ch && leb ch 122))

abbrev pub sanitize_byte : ℕ → ℕ
sanitize_byte ch = if is_alnum ch || (ch == 45 || ch == 95) then ch else 95

unfoldable pub sanitize_component : List ℕ → List ℕ
sanitize_component [] = []
sanitize_component (ch ∷ value) = sanitize_byte ch ∷ sanitize_component value

-- The hash is a 64-bit word: the product wraps around.
unfoldable pub fnv_from : ℕ → List ℕ → ℕ
fnv_from hash [] = hash
fnv_from hash (ch ∷ value) = fnv_from ((bit_xor hash ch * 1099511628211) % 2 ^ 64) value

unfoldable pub fnv1a64 : List ℕ → ℕ
fnv1a64 value = fnv_from 14695981039346656037 value

abbrev pub hex_digit : ℕ → ℕ
hex_digit d = if ltb d 10 then 48 + d else 87 + d

-- The digits that are left to put before those in `out`; value & 0xF is the remainder by 16.
unfoldable pub hex_rounds : ℕ → ℕ → List ℕ → List ℕ
hex_rounds zero value out = out
hex_rounds (suc i) value out = hex_rounds i (value / 16) (hex_digit (value % 16) ∷ out)

unfoldable pub hex4 : ℕ → List ℕ
hex4 value = hex_rounds 4 value []

unfoldable pub truncate_tool_name : List ℕ → List ℕ → List ℕ
truncate_tool_name sanitized_tool raw_tool_name =
    take truncated_tool_prefix_length sanitized_tool ++ (95 ∷ 104 ∷ hex4 (fnv1a64 raw_tool_name))

abbrev pub shorten_server : List ℕ → List ℕ
shorten_server server =
    if ltb server_id_max (length server) then take server_id_max server else server

abbrev pub shorten_tool : List ℕ → List ℕ
shorten_tool raw_tool_name =
    let tool = sanitize_component raw_tool_name in
    if ltb tool_name_max (length tool) then truncate_tool_name tool raw_tool_name else tool

-- "mcp_", the server, "__" and the tool.
abbrev pub qualify : List ℕ → List ℕ → List ℕ
qualify server tool = (109 ∷ 99 ∷ 112 ∷ 95 ∷ []) ++ (server ++ (95 ∷ 95 ∷ tool))

abbrev pub name_from : List ℕ → List ℕ → Option (List ℕ)
name_from [] raw_tool_name = none
name_from (c ∷ server) raw_tool_name =
    some (qualify (shorten_server (c ∷ server)) (shorten_tool raw_tool_name))

unfoldable pub sanitize_mcp_tool_name : List ℕ → List ℕ → Option (List ℕ)
sanitize_mcp_tool_name server_id raw_tool_name =
    name_from (sanitize_component server_id) raw_tool_name
