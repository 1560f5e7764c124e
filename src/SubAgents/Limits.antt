-- ===== src/SubAgents/Limits.antt =====
-- How many sub-agents run, and that each has an id of its own.
use Prim.Native.String.{String}
use text.Mathlib.Text.{◌==◌}
use text.Mathlib.TextEquality.{eq_iff}
use text.Mathlib.TextLemmas.{append_cancel_left}
use yac.Common.{
  ℕ, suc, ◌≤◌, ◌<◌, ◌≡◌, refl, sym, ◌∙◌, inl, inr, Bool, true, false, List, [], ◌∷◌, arith,
  if◌then◌else◌, length, Bool-cases,
}
use yac.Common.Text.{to_string}
use yac.Common.Text.Decimal.{to_string_inj}
use yac.SubAgents.{
  SubAgentSession, max_concurrent_sub_agents, find_session, make_agent_id, is_finished,
  keep_unfinished, has_key, erase_key,
}

-- The keys of the map: no more than the limit, each once, each made from a number below `next`.
abbrev Distinct : List String → Type 0
Distinct [] = Unit {0}
Distinct (k ∷ keys) = (has_key keys k ≡ false) × Distinct keys

abbrev Made : ℕ → List String → Type 0
Made next [] = Unit {0}
Made next (k ∷ keys) = ((n : ℕ) × (n < next) × (k ≡ make_agent_id n)) × Made next keys

pub record ValidKeys (active : List String) (next : ℕ) : Type 0 where
  pub bounded : length active ≤ max_concurrent_sub_agents
  pub distinct : Distinct active
  pub made : Made next active

make_agent_id-inj : (m n : ℕ) → make_agent_id m ≡ make_agent_id n → m ≡ n
unfolding make_agent_id
make_agent_id-inj m n e =
    to_string_inj m n (append_cancel_left "sub-agent-" (to_string m) (to_string n) e)

Made-suc : (next : ℕ) (keys : List String) → Made next keys → Made (suc next) keys
Made-suc next [] h = tt
Made-suc next (k ∷ keys) ((n, lt, e), h) = ((n, omega arith, e), Made-suc next keys h)

-- An id made from the next number is new.
has_key-Made :
    (next : ℕ) (keys : List String) → Made next keys → has_key keys (make_agent_id next) ≡ false
unfolding has_key
has_key-Made next [] h = refl
has_key-Made next (k ∷ keys) ((n, lt, e), h) = elim (Bool-cases (k == make_agent_id next)) [
  | inl eq ↦
      let n_is : n ≡ next =
        make_agent_id-inj n next (sym e ∙ (eq_iff k (make_agent_id next)).0 eq) in
      absurd (omega (arith, lt, n_is))
  | inr other ↦ rw (other) (has_key-Made next keys h)
]

-- What a smaller map keeps.
record Smaller (new old : List String) : Type 0 where
  shorter : length new ≤ length old
  no_new : (id : String) → has_key old id ≡ false → has_key new id ≡ false

if-true : (b : Bool) {x : Bool} → (if b then true else x) ≡ false → (b ≡ false) × (x ≡ false)
if-true true h = ground (arith, h)
if-true false h = (refl, h)

skip-Smaller : (k : String) {new old : List String} → Smaller new old → Smaller new (k ∷ old)
unfolding has_key
skip-Smaller k {old} s = record {
  shorter = omega (arith, s.shorter);
  no_new = λ id h. s.no_new id (if-true (k == id) h).1;
}

keep-Smaller : (k : String) {new old : List String} → Smaller new old → Smaller (k ∷ new) (k ∷ old)
unfolding has_key
keep-Smaller k {old} s = record {
  shorter = omega (arith, s.shorter);
  no_new = λ id h. let (a, b) = if-true (k == id) h in rw (a) (s.no_new id b);
}

all-Smaller : (keys : List String) → Smaller keys keys
all-Smaller keys = record { shorter = omega arith; no_new = λ id h. h }

keep_unfinished-Smaller :
    (sessions : List SubAgentSession) (keys : List String)
    → Smaller (keep_unfinished sessions keys) keys
unfolding keep_unfinished
keep_unfinished-Smaller sessions [] = all-Smaller []
keep_unfinished-Smaller sessions (k ∷ keys) =
    elim (Bool-cases (is_finished (find_session sessions k))) [
      | inl e ↦ rw (e) (skip-Smaller k (keep_unfinished-Smaller sessions keys))
      | inr e ↦ rw (e) (keep-Smaller k (keep_unfinished-Smaller sessions keys))
    ]

keep_unfinished-Distinct :
    (sessions : List SubAgentSession) (keys : List String)
    → Distinct keys
    → Distinct (keep_unfinished sessions keys)
unfolding keep_unfinished
keep_unfinished-Distinct sessions [] h = tt
keep_unfinished-Distinct sessions (k ∷ keys) (new, h) =
    let rest = keep_unfinished-Distinct sessions keys h in
    elim (Bool-cases (is_finished (find_session sessions k))) [
      | inl e ↦ rw (e) rest
      | inr e ↦ rw (e) ((keep_unfinished-Smaller sessions keys).no_new k new, rest)
    ]

keep_unfinished-Made :
    (sessions : List SubAgentSession) (next : ℕ) (keys : List String)
    → Made next keys
    → Made next (keep_unfinished sessions keys)
unfolding keep_unfinished
keep_unfinished-Made sessions next [] h = tt
keep_unfinished-Made sessions next (k ∷ keys) (a, h) =
    let rest = keep_unfinished-Made sessions next keys h in
    elim (Bool-cases (is_finished (find_session sessions k))) [
      | inl e ↦ rw (e) rest
      | inr e ↦ rw (e) (a, rest)
    ]

erase_key-Smaller : (id : String) (keys : List String) → Smaller (erase_key keys id) keys
unfolding erase_key
erase_key-Smaller id [] = all-Smaller []
erase_key-Smaller id (k ∷ keys) = elim (Bool-cases (k == id)) [
  | inl e ↦ rw (e) (skip-Smaller k (all-Smaller keys))
  | inr e ↦ rw (e) (keep-Smaller k (erase_key-Smaller id keys))
]

erase_key-Kept :
    (id : String) (next : ℕ) (keys : List String)
    → Distinct keys
    → Made next keys
    → Distinct (erase_key keys id) × Made next (erase_key keys id)
unfolding erase_key
erase_key-Kept id next [] h m = (tt, tt)
erase_key-Kept id next (k ∷ keys) (new, h) (made, m) =
    let (d, r) = erase_key-Kept id next keys h m in
    elim (Bool-cases (k == id)) [
      | inl e ↦ rw (e) (h, m)
      | inr e ↦ rw (e) (((erase_key-Smaller id keys).no_new k new, d), (made, r))
    ]

pub keep_unfinished-ValidKeys :
    (sessions : List SubAgentSession) {keys : List String} {next : ℕ}
    → ValidKeys keys next
    → ValidKeys (keep_unfinished sessions keys) next
keep_unfinished-ValidKeys sessions {keys} {next} v = record {
  bounded = omega (arith, v.bounded, (keep_unfinished-Smaller sessions keys).shorter);
  distinct = keep_unfinished-Distinct sessions keys v.distinct;
  made = keep_unfinished-Made sessions next keys v.made;
}

pub erase_key-ValidKeys :
    (id : String) {keys : List String} {next : ℕ}
    → ValidKeys keys next
    → ValidKeys (erase_key keys id) next
erase_key-ValidKeys id {keys} {next} v =
    let (d, r) = erase_key-Kept id next keys v.distinct v.made in
    record {
      bounded = omega (arith, v.bounded, (erase_key-Smaller id keys).shorter);
      distinct = d;
      made = r;
    }

pub suc-ValidKeys :
    {keys : List String} {next : ℕ} → ValidKeys keys next → ValidKeys keys (suc next)
suc-ValidKeys {keys} {next} v = record {
  bounded = v.bounded;
  distinct = v.distinct;
  made = Made-suc next keys v.made;
}

pub empty-ValidKeys : (next : ℕ) → ValidKeys [] next
empty-ValidKeys next = record { bounded = omega arith; distinct = tt; made = tt }

pub add-ValidKeys :
    {keys : List String} {next : ℕ}
    → length keys < max_concurrent_sub_agents
    → ValidKeys keys next
    → ValidKeys (make_agent_id next ∷ keys) (suc next)
add-ValidKeys {keys} {next} room v = record {
  bounded = omega (arith, room);
  distinct = (has_key-Made next keys v.made, v.distinct);
  made = ((next, omega arith, refl), Made-suc next keys v.made);
}

pub new_key :
    {keys : List String} {next : ℕ}
    → ValidKeys keys next
    → has_key keys (make_agent_id next) ≡ false
new_key {keys} {next} v = has_key-Made next keys v.made
