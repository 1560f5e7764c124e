-- ===== src/SubAgents.antt =====
-- src/chat/sub_agent_manager.cpp: the sub-agents that answer a task beside the conversation, in the
-- foreground, while the tool call that started them waits, or in the background.
--
-- A session is shared between `active_sessions_` and the thread that runs it, so all sessions stay in
-- the list `sessions`, and `active` has the ids in the map. A run is a start and an end, between
-- which other threads run; what its prompt does to the session is the calls in between and the
-- history at the end. The clock is in milliseconds.
pub mod Completion
pub mod Calls
pub mod Limits
pub mod Runs
use Prim.Native.String.{String}
use Prim.Native.String
use text.Mathlib.Text.{◌==◌}
use yac.Common.{
  ℕ, suc, ◌+◌, ◌*◌, Bool, true, false, not, Option, none, some, List, [], ◌∷◌, ◌++◌, if◌then◌else◌,
  length, leb, map,
}
use yac.Common.Text.{to_string}
use yac.Chat.Message.{ChatMessage}
use yac.Chat.Block.{SubAgentMode}
use yac.Chat.Event.{ChatEvent}

abbrev pub max_concurrent_sub_agents : ℕ
max_concurrent_sub_agents = 4

pub record SubAgentSession : Type 0 where
  pub agent_id : String
  pub task : String
  pub tool_call_id : String
  pub mode : SubAgentMode
  pub card_message_id : ℕ
  pub deadline : ℕ
  pub started_at : ℕ
  pub stop_requested : Bool
  pub history : List ChatMessage
  pub generation : ℕ
  pub completed_tool_count : ℕ
  pub finished : Bool
  pub timed_out : Bool
  pub cancelled : Bool

-- `emitted` and `injected` are the calls of parent_emit_ and of continuation_injector_, the oldest
-- first; `next_message_id` is what next_message_id_ gives, if it is set.
pub record SubAgentManager : Type 0 where
  pub timeout_seconds : ℕ
  pub sessions : List SubAgentSession
  pub active : List String
  pub next_agent_id : ℕ
  pub has_injector : Bool
  pub next_message_id : Option ℕ
  pub now : ℕ
  pub emitted : List ChatEvent
  pub injected : List String

unfoldable pub find_session : List SubAgentSession → String → Option SubAgentSession
find_session [] id = none
find_session (s ∷ sessions) id = if s.agent_id == id then some s else find_session sessions id

abbrev pub change_one :
    String → (SubAgentSession → SubAgentSession) → SubAgentSession → SubAgentSession
change_one id f s = if s.agent_id == id then f s else s

-- A write through the pointer to a session.
unfoldable pub change_session :
    SubAgentManager → String → (SubAgentSession → SubAgentSession) → SubAgentManager
change_session m id f = record m { sessions = map (change_one id f) m.sessions }

unfoldable pub parent_emit : SubAgentManager → ChatEvent → SubAgentManager
parent_emit m event = record m { emitted = m.emitted ++ (event ∷ []) }

unfoldable pub make_agent_id : ℕ → String
make_agent_id n = String.◌++◌ "sub-agent-" (to_string n)

unfoldable pub create_session :
    SubAgentManager → String → SubAgentMode → ℕ → String → SubAgentSession × SubAgentManager
create_session m task mode card_message_id tool_call_id =
    let session : SubAgentSession = record {
      agent_id = make_agent_id m.next_agent_id;
      task = task;
      tool_call_id = tool_call_id;
      mode = mode;
      card_message_id = card_message_id;
      deadline = m.now + m.timeout_seconds * 1000;
      started_at = m.now;
      stop_requested = false;
      history = [];
      generation = 0;
      completed_tool_count = 0;
      finished = false;
      timed_out = false;
      cancelled = false;
    } in
    (
      session,
      record m { next_agent_id = suc m.next_agent_id; sessions = m.sessions ++ (session ∷ []) },
    )

abbrev pub is_finished : Option SubAgentSession → Bool
is_finished none = false
is_finished (some s) = s.finished

-- `MoveFinishedSessionsLocked`, on the keys of the map.
unfoldable pub keep_unfinished : List SubAgentSession → List String → List String
keep_unfinished sessions [] = []
keep_unfinished sessions (id ∷ active) =
    if is_finished (find_session sessions id)
    then keep_unfinished sessions active
    else id ∷ keep_unfinished sessions active

unfoldable pub cleanup_finished_sessions : SubAgentManager → SubAgentManager
cleanup_finished_sessions m = record m { active = keep_unfinished m.sessions m.active }

unfoldable pub has_key : List String → String → Bool
has_key [] id = false
has_key (k ∷ active) id = if k == id then true else has_key active id

-- The size is tested after the finished sessions are gone; emplace adds a new key only.
unfoldable pub try_store_session : SubAgentManager → String → Bool × SubAgentManager
try_store_session m id =
    let cleaned = cleanup_finished_sessions m in
    if leb max_concurrent_sub_agents (length cleaned.active)
    then (false, cleaned)
    else if has_key cleaned.active id
    then (false, cleaned)
    else (true, record cleaned { active = id ∷ cleaned.active })

unfoldable pub erase_key : List String → String → List String
erase_key [] id = []
erase_key (k ∷ active) id = if k == id then active else k ∷ erase_key active id

unfoldable pub remove_session : SubAgentManager → String → SubAgentManager
remove_session m id = record m { active = erase_key m.active id }

unfoldable pub request_session_stop : Bool → SubAgentSession → SubAgentSession
request_session_stop mark_cancelled s = record s {
  cancelled = if mark_cancelled then true else s.cancelled;
  generation = if s.stop_requested then s.generation else suc s.generation;
  stop_requested = true;
}

unfoldable pub is_at_capacity : SubAgentManager → Bool × SubAgentManager
is_at_capacity m =
    let cleaned = cleanup_finished_sessions m in
    (leb max_concurrent_sub_agents (length cleaned.active), cleaned)
