-- ===== src/Mcp/Naming/Limits.antt =====
-- The parts of the names that `SanitizeMcpToolName` of src/mcp/tool_naming.cpp builds: their bytes
-- and their lengths.
use yac.Common.{
  ℕ, zero, suc, ◌+◌, ◌/◌, ◌%◌, ◌≤◌, ◌<◌, ◌≡◌, refl, ap, inl, inr, Bool, true, ◌||◌, some, List, [],
  ◌∷◌, ◌++◌, arith, ltb, ◌==◌, length, take, length-append, length-take, Bool-cases,
}
use yac.Mcp.Naming.Sanitize.{
  server_id_max, tool_name_max, truncated_tool_prefix_length, is_alnum, sanitize_byte,
  sanitize_component, fnv1a64, hex_digit, hex_rounds, hex4, truncate_tool_name, shorten_server,
  shorten_tool, qualify, sanitize_mcp_tool_name,
}

-- The bytes that a provider takes in the name of a tool.
abbrev pub is_safe : ℕ → Bool
is_safe ch = is_alnum ch || (ch == 45 || ch == 95)

pub IsSafe : List ℕ → Type 0
IsSafe [] = Unit {0}
IsSafe (ch ∷ text) = (is_safe ch ≡ true) × IsSafe text

append-IsSafe : (xs ys : List ℕ) → IsSafe xs → IsSafe ys → IsSafe (xs ++ ys)
unfolding IsSafe
append-IsSafe [] ys h k = k
append-IsSafe (x ∷ xs) ys (a, h) k = (a, append-IsSafe xs ys h k)

take-IsSafe : (n : ℕ) (xs : List ℕ) → IsSafe xs → IsSafe (take n xs)
unfolding IsSafe
take-IsSafe zero xs h = tt
take-IsSafe (suc n) [] h = tt
take-IsSafe (suc n) (x ∷ xs) (a, h) = (a, take-IsSafe n xs h)

sanitize_component-IsSafe : (text : List ℕ) → IsSafe (sanitize_component text)
unfolding IsSafe sanitize_component
sanitize_component-IsSafe [] = tt
sanitize_component-IsSafe (ch ∷ text) = (ground arith, sanitize_component-IsSafe text)

hex_digit-is_safe : (d : ℕ) → d < 16 → is_safe (hex_digit d) ≡ true
hex_digit-is_safe d h = ground arith

hex_rounds-IsSafe : (i value : ℕ) (out : List ℕ) → IsSafe out → IsSafe (hex_rounds i value out)
unfolding IsSafe hex_rounds
hex_rounds-IsSafe zero value out h = h
hex_rounds-IsSafe (suc i) value out h =
    hex_rounds-IsSafe i (value / 16) (hex_digit (value % 16) ∷ out)
      (hex_digit-is_safe (value % 16) (omega arith), h)

length-hex_rounds : (i value : ℕ) (out : List ℕ) → length (hex_rounds i value out) ≡ i + length out
unfolding hex_rounds
length-hex_rounds zero value out = omega arith
length-hex_rounds (suc i) value out =
    omega (arith, length-hex_rounds i (value / 16) (hex_digit (value % 16) ∷ out))

length-sanitize_component : (text : List ℕ) → length (sanitize_component text) ≡ length text
unfolding sanitize_component
length-sanitize_component [] = refl
length-sanitize_component (ch ∷ text) = ap suc (length-sanitize_component text)

-- The two parts of a name, within their limits.
pub record Named (name : List ℕ) : Type 0 where
  pub server : List ℕ
  pub tool : List ℕ
  pub parts : name ≡ qualify server tool
  pub server_given : 1 ≤ length server
  pub server_short : length server ≤ server_id_max
  pub tool_short : length tool ≤ tool_name_max + 1
  pub safe : IsSafe name

truncate-bounds :
    (tool raw : List ℕ)
    → tool_name_max < length tool
    → length (truncate_tool_name tool raw) ≡ tool_name_max + 1
unfolding truncate_tool_name hex4
truncate-bounds tool raw h = omega (
  arith,
  length-append (take truncated_tool_prefix_length tool) (95 ∷ 104 ∷ hex_rounds 4 (fnv1a64 raw) []),
  length-take truncated_tool_prefix_length tool,
  length-hex_rounds 4 (fnv1a64 raw) [],
)

truncate-IsSafe : (tool raw : List ℕ) → IsSafe tool → IsSafe (truncate_tool_name tool raw)
unfolding truncate_tool_name hex4 IsSafe
truncate-IsSafe tool raw h =
    append-IsSafe (take truncated_tool_prefix_length tool)
      (95 ∷ 104 ∷ hex_rounds 4 (fnv1a64 raw) []) (take-IsSafe truncated_tool_prefix_length tool h)
      (refl, (refl, hex_rounds-IsSafe 4 (fnv1a64 raw) [] tt))

shorten_tool-le : (raw : List ℕ) → length (shorten_tool raw) ≤ tool_name_max + 1
shorten_tool-le raw = elim (Bool-cases (ltb tool_name_max (length (sanitize_component raw)))) [
  | inl long ↦
      rw (long) (omega (arith, truncate-bounds (sanitize_component raw) raw (ground (arith, long))))
  | inr short ↦ rw (short) (ground (arith, short))
]

shorten_tool-IsSafe : (raw : List ℕ) → IsSafe (shorten_tool raw)
shorten_tool-IsSafe raw = elim (Bool-cases (ltb tool_name_max (length (sanitize_component raw)))) [
  | inl long ↦
      rw (long) (truncate-IsSafe (sanitize_component raw) raw (sanitize_component-IsSafe raw))
  | inr short ↦ rw (short) (sanitize_component-IsSafe raw)
]

shorten_server-le : (server : List ℕ) → length (shorten_server server) ≤ server_id_max
shorten_server-le server = elim (Bool-cases (ltb server_id_max (length server))) [
  | inl long ↦ rw (long) (omega (arith, length-take server_id_max server))
  | inr short ↦ rw (short) (ground (arith, short))
]

shorten_server-given : (c : ℕ) (server : List ℕ) → 1 ≤ length (shorten_server (c ∷ server))
shorten_server-given c server = elim (Bool-cases (ltb server_id_max (length (c ∷ server)))) [
  | inl long ↦ rw (long) (omega (arith, length-take server_id_max (c ∷ server)))
  | inr short ↦ rw (short) (omega arith)
]

shorten_server-IsSafe : (server : List ℕ) → IsSafe server → IsSafe (shorten_server server)
shorten_server-IsSafe server h = elim (Bool-cases (ltb server_id_max (length server))) [
  | inl long ↦ rw (long) (take-IsSafe server_id_max server h)
  | inr short ↦ rw (short) h
]

qualify-IsSafe : (server tool : List ℕ) → IsSafe server → IsSafe tool → IsSafe (qualify server tool)
unfolding IsSafe
qualify-IsSafe server tool h k =
    (refl, (refl, (refl, (refl, append-IsSafe server (95 ∷ 95 ∷ tool) h (refl, (refl, k))))))

-- A server with an id gives each of its tools a name: the prefix, at most 16 bytes for the server,
-- the separator, and at most 41 for the tool, all letters, digits, dashes or underscores.
pub sanitize_mcp_tool_name-Named :
    (c : ℕ) (server_id raw_tool_name : List ℕ)
    → (name : List ℕ) × (sanitize_mcp_tool_name (c ∷ server_id) raw_tool_name ≡ some name)
      × Named name
unfolding sanitize_mcp_tool_name sanitize_component
sanitize_mcp_tool_name-Named c server_id raw_tool_name =
    let server = sanitize_component (c ∷ server_id) in
    let tool = shorten_tool raw_tool_name in
    let name = qualify (shorten_server server) tool in
    let safe =
      qualify-IsSafe (shorten_server server) tool
        (shorten_server-IsSafe server (sanitize_component-IsSafe (c ∷ server_id)))
        (shorten_tool-IsSafe raw_tool_name) in
    let named : Named name = record {
      server = shorten_server server;
      tool = tool;
      parts = refl;
      server_given = shorten_server-given (sanitize_byte c) (sanitize_component server_id);
      server_short = shorten_server-le server;
      tool_short = shorten_tool-le raw_tool_name;
      safe = safe;
    } in
    (name, refl, named)
