-- ===== src/Service/Tools/Wait/Decides.antt =====
-- The wait for a decision of src/chat/tool_round_runner.cpp ends once another thread has decided.
use Prim.Native.String.{String}
use yac.Common.{ℕ, ◌≡◌, ◌⊎◌, true, List, [], ◌∷◌}
use yac.Approvals.{Approvals, find, decided}
use yac.Service.State.{Service}
use yac.Service.Calls.{Call}

-- A call that decides the approval `k`.
abbrev pub Decides : String → Call → Type 0
Decides k (Call.resolve j approved) = j ≡ k
Decides k (Call.answer j response) = j ≡ k
Decides k _ = ⊥

abbrev pub AnyDecides : String → List Call → Type 0
AnyDecides k [] = ⊥
AnyDecides k (c ∷ cs) = Decides k c ⊎ AnyDecides k cs

-- The approval `k` is not open: it is decided, or no longer there.
abbrev IsSettled : String → Approvals → Type 0
IsSettled k a = decided (find k a.pending) ≡ true

-- The approvals and the moment.
desk : Service → Approvals × ℕ
desk s = (s.approvals, s.clock)
