-- ===== src/Approvals.antt =====
-- Pending tool approvals: src/chat/tool_approval_manager.cpp. Each operation runs under the
-- manager's mutex, so it is one step here. `WaitForResolution` blocks until its predicate holds:
-- `wait_ready` is the predicate and `wait_take` what is done once it holds.
pub mod Names
pub mod Decisions
use Prim.Native.String.{String}
use Prim.Native.String
use text.Mathlib.Text.{◌==◌}
use yac.Common.{ℕ, suc, Bool, true, false, ◌||◌, Option, none, some, List, [], ◌∷◌, if◌then◌else◌}
use yac.Common.Text.{to_string}

pub record ApprovalResolution : Type 0 where
  pub approved : Bool
  pub response : String

pub record PendingApproval : Type 0 where
  pub id : String
  pub tool_call_id : String
  pub tool_name : String
  pub tool_args : String
  pub approved : Option Bool
  pub response : Option String

-- The entries of `pending_`, which are keyed by their ids, and `next_approval_id_`, which does not
-- wrap.
pub record Approvals : Type 0 where
  pub pending : List PendingApproval
  pub next_approval_id : ℕ

pub init : Approvals
init = record { pending = []; next_approval_id = 1 }

unfoldable pub find : String → List PendingApproval → Option PendingApproval
find k [] = none
find k (e ∷ es) = if e.id == k then some e else find k es

unfoldable pub update :
    String → (PendingApproval → PendingApproval) → List PendingApproval → List PendingApproval
update k f [] = []
update k f (e ∷ es) = if e.id == k then f e ∷ es else e ∷ update k f es

unfoldable pub erase : String → List PendingApproval → List PendingApproval
erase k [] = []
erase k (e ∷ es) = if e.id == k then es else e ∷ erase k es

-- `unordered_map::emplace`: an entry whose key is there already is not inserted.
unfoldable pub emplace : PendingApproval → List PendingApproval → List PendingApproval
emplace e es = elim (find e.id es) [ none ↦ e ∷ es | some _ ↦ es ]

unfoldable pub approval_name : ℕ → String
approval_name n = String.◌++◌ "tool-" (to_string n)

abbrev pub open_entry : String → String → String → String → PendingApproval
open_entry approval_id tool_call_id tool_name tool_args = record {
  id = approval_id;
  tool_call_id = tool_call_id;
  tool_name = tool_name;
  tool_args = tool_args;
  approved = none;
  response = none;
}

unfoldable pub request_approval : Approvals → String → String → String → String × Approvals
request_approval s tool_call_id tool_name tool_args =
    let approval_id = approval_name s.next_approval_id in
    let entry = open_entry approval_id tool_call_id tool_name tool_args in
    (
      approval_id,
      record { pending = emplace entry s.pending; next_approval_id = suc s.next_approval_id },
    )

abbrev pub set_approved : Bool → PendingApproval → PendingApproval
set_approved approved e = record e { approved = some approved }

abbrev pub set_response : String → PendingApproval → PendingApproval
set_response response e = record e { approved = some true; response = some response }

abbrev pub cancel : PendingApproval → PendingApproval
cancel e = elim e.approved [ none ↦ record e { approved = some false } | some _ ↦ e ]

pub cancel_all : List PendingApproval → List PendingApproval
cancel_all [] = []
cancel_all (e ∷ es) = cancel e ∷ cancel_all es

unfoldable pub resolve_tool_approval : Approvals → String → Bool → Approvals
resolve_tool_approval s k approved = record s {
  pending = update k (set_approved approved) s.pending;
}

unfoldable pub resolve_ask_user : Approvals → String → String → Approvals
resolve_ask_user s k response = record s { pending = update k (set_response response) s.pending }

unfoldable pub cancel_pending : Approvals → Approvals
cancel_pending s = record s { pending = cancel_all s.pending }

abbrev pub is_open : PendingApproval → Bool
is_open e = elim e.approved [ none ↦ true | some _ ↦ false ]

pub any_open : List PendingApproval → Bool
any_open [] = false
any_open (e ∷ es) = if is_open e then true else any_open es

pub is_awaiting_approval : Approvals → Bool
is_awaiting_approval s = any_open s.pending

abbrev pub decided : Option PendingApproval → Bool
decided none = true
decided (some e) = elim e.approved [ none ↦ false | some _ ↦ true ]

-- The predicate of `wake_.wait`.
unfoldable pub wait_ready : Approvals → String → Bool → Bool
wait_ready s k stop_requested = decided (find k s.pending) || stop_requested

abbrev pub no_resolution : ApprovalResolution
no_resolution = record { approved = false; response = "" }

abbrev pub value_or : Option String → String → String
value_or none d = d
value_or (some t) d = t

abbrev pub sentence : Option Bool → Option String → Bool → ApprovalResolution
sentence none response stop_requested = no_resolution
sentence (some approved) response stop_requested =
    if stop_requested
    then no_resolution
    else record { approved = approved; response = value_or response "" }

abbrev pub resolution : Option PendingApproval → Bool → ApprovalResolution
resolution none stop_requested = no_resolution
resolution (some e) stop_requested = sentence e.approved e.response stop_requested

-- What follows the wait: the entry goes, if it is there, and the resolution is handed out.
unfoldable pub wait_take : Approvals → String → Bool → ApprovalResolution × Approvals
wait_take s k stop_requested =
    (resolution (find k s.pending) stop_requested, record s { pending = erase k s.pending })
