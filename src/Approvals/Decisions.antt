-- ===== src/Approvals/Decisions.antt =====
-- The life of one approval, whatever the other operations on the manager are.
use Prim.Native.String.{String}
use text.Mathlib.Text.{◌==◌}
use text.Mathlib.TextEquality.{eq_iff}
use yac.Common.{
  ◌≡◌, refl, Bool, true, false, ◌||◌, Option, none, some, List, [], ◌∷◌, arith, ap, if◌then◌else◌,
}
use yac.Approvals.{
  Approvals, PendingApproval, find, update, emplace, cancel, approval_name, open_entry,
  request_approval, resolve_tool_approval, resolve_ask_user, cancel_pending, wait_ready, wait_take,
  set_approved, set_response, resolution, decided, sentence,
}
use yac.Approvals.Names.{
  IsValid, find_fresh, find-update, find-cancel_all, find-erase_ne, find-erase_self, emplace_fresh,
  request-IsValid, resolve-IsValid, answer-IsValid, cancel-IsValid, wait_take-IsValid,
}

-- The calls of the manager's methods that change it.
pub data Call : Type 0 where
  request : String → String → String → Call
  resolve : String → Bool → Call
  answer : String → String → Call
  cancels : Call
  take : String → Bool → Call

pub act : Approvals → Call → Approvals
act s (request c n a) = (request_approval s c n a).1
act s (resolve k b) = resolve_tool_approval s k b
act s (answer k t) = resolve_ask_user s k t
act s cancels = cancel_pending s
act s (take k stop) = (wait_take s k stop).1

pub run : Approvals → List Call → Approvals
run s [] = s
run s (c ∷ cs) = run (act s c) cs

act-IsValid : (s : Approvals) (c : Call) → IsValid s → IsValid (act s c)
unfolding act
act-IsValid s (request c n a) v = request-IsValid s v c n a
act-IsValid s (resolve k b) v = resolve-IsValid s v k b
act-IsValid s (answer k t) v = answer-IsValid s v k t
act-IsValid s cancels v = cancel-IsValid s v
act-IsValid s (take k stop) v = wait_take-IsValid s v k stop

-- If the pending ids are distinct, and each is made from a number handed out before, then they are
-- so after any sequence of calls.
pub run-IsValid : (s : Approvals) (cs : List Call) → IsValid s → IsValid (run s cs)
unfolding run
run-IsValid s [] v = v
run-IsValid s (c ∷ cs) v = run-IsValid (act s c) cs (act-IsValid s c v)

-- The abstract view of one approval: what was decided and what was answered.
pub record Verdict : Type 0 where
  pub approved : Option Bool
  pub response : Option String

abbrev pub open_verdict : Verdict
open_verdict = record { approved = none; response = none }

-- How a call changes the verdict on `k`: the last decision counts, and a cancellation rejects
-- only what is still open.
pub judge : String → Verdict → Call → Verdict
judge k v (request c n a) = v
judge k v (resolve j b) = if j == k then record v { approved = some b } else v
judge k v (answer j t) = if j == k then record { approved = some true; response = some t } else v
judge k v cancels = elim v.approved [ none ↦ record v { approved = some false } | some _ ↦ v ]
judge k v (take j stop) = v

pub verdict : String → Verdict → List Call → Verdict
verdict k v [] = v
verdict k v (c ∷ cs) = verdict k (judge k v c) cs

-- No call waits for `k`.
abbrev pub Untaken : String → List Call → Type 0
Untaken k [] = Unit {0}
Untaken k (take j stop ∷ cs) = ((j == k) ≡ false) × Untaken k cs
Untaken k (c ∷ cs) = Untaken k cs

-- `k` is pending with this verdict.
abbrev pub Holds : Verdict → Option PendingApproval → Type 0
Holds v none = ⊥
Holds v (some e) = (e.approved ≡ v.approved) × (e.response ≡ v.response)

abbrev with_new : PendingApproval → String → Option PendingApproval → Option PendingApproval
with_new e k none = if e.id == k then some e else none
with_new e k (some x) = some x

find_cons :
    (e : PendingApproval) (k : String) (es : List PendingApproval)
    → find k (e ∷ es) ≡ (if e.id == k then some e else find k es)
unfolding find
find_cons e k es = refl

find-emplace :
    (e : PendingApproval) (k : String) (es : List PendingApproval)
    → find k (emplace e es) ≡ with_new e k (find k es)
unfolding emplace
find-emplace e k es = ground (arith, eq_iff e.id k, find_cons e k es)

request-Holds :
    (s : Approvals) (k : String) (v : Verdict) (c n a : String)
    → Holds v (find k s.pending)
    → Holds v (find k (request_approval s c n a).1.pending)
unfolding request_approval
request-Holds s k v c n a h = rw (find-emplace _ k s.pending) (keep (find k s.pending) h)
  where
    keep :
        (o : Option PendingApproval)
        → Holds v o
        → Holds v (with_new (open_entry (approval_name s.next_approval_id) c n a) k o)
    keep none h' = absurd h'
    keep (some e) h' = h'

update-Holds :
    (s : Approvals) (k j : String) (f : PendingApproval → PendingApproval) (g : Verdict → Verdict)
    (v : Verdict)
    → ((e : PendingApproval) → (f e).id ≡ e.id)
    → ((e : PendingApproval) → Holds v (some e) → Holds (g v) (some (f e)))
    → Holds v (find k s.pending)
    → Holds (if j == k then g v else v) (find k (update j f s.pending))
update-Holds s k j f g v same_id keep h =
    rw (find-update f same_id j k s.pending) (on_found (j == k) (find k s.pending) h)
  where
    on_found :
        (b : Bool) (o : Option PendingApproval)
        → Holds v o
        → Holds
            (if b then g v else v)
            (if b then elim o [ none ↦ none | some e ↦ some (f e) ] else o)
    on_found true none h' = absurd h'
    on_found true (some e) h' = keep e h'
    on_found false o h' = h'

cancel-Holds :
    (s : Approvals) (k : String) (v : Verdict)
    → Holds v (find k s.pending)
    → Holds (judge k v cancels) (find k (cancel_pending s).pending)
unfolding cancel_pending judge
cancel-Holds s k v h = rw (find-cancel_all k s.pending) (on_found (find k s.pending) h)
  where
    on_found :
        (o : Option PendingApproval)
        → Holds v o
        → Holds (judge k v cancels) (elim o [ none ↦ none | some e ↦ some (cancel e) ])
    on_found none h' = absurd h'
    on_found (some e) h' = ground arith

take-Holds :
    (s : Approvals) (k : String) (v : Verdict) (j : String) (stop : Bool)
    → (j == k) ≡ false
    → Holds v (find k s.pending)
    → Holds v (find k (wait_take s j stop).1.pending)
unfolding wait_take
take-Holds s k v j stop u h = rw (find-erase_ne j k s.pending u) h

-- A step changes the entry of `k` as the verdict says.
act-Holds :
    (s : Approvals) (k : String) (v : Verdict) (c : Call)
    → Untaken k (c ∷ [])
    → Holds v (find k s.pending)
    → Holds (judge k v c) (find k (act s c).pending)
unfolding act judge resolve_tool_approval resolve_ask_user
act-Holds s k v (request c n a) u h = request-Holds s k v c n a h
act-Holds s k v (resolve j b) u h =
    update-Holds s k j (set_approved b) (λ w. record w { approved = some b }) v (λ e. refl)
      (λ e x. (refl, x.1)) h
act-Holds s k v (answer j t) u h =
    update-Holds s k j (set_response t) (λ w. record { approved = some true; response = some t }) v
      (λ e. refl) (λ e x. (refl, refl)) h
act-Holds s k v cancels u h = cancel-Holds s k v h
act-Holds s k v (take j stop) u h = take-Holds s k v j stop u.0 h

run-Holds :
    (s : Approvals) (k : String) (v : Verdict) (cs : List Call)
    → Untaken k cs
    → Holds v (find k s.pending)
    → Holds (verdict k v cs) (find k (run s cs).pending)
unfolding run verdict
run-Holds s k v [] u h = h
run-Holds s k v (request c n a ∷ cs) u h =
    run-Holds (act s (request c n a)) k (judge k v (request c n a)) cs u
      (act-Holds s k v (request c n a) tt h)
run-Holds s k v (resolve j b ∷ cs) u h =
    run-Holds (act s (resolve j b)) k (judge k v (resolve j b)) cs u
      (act-Holds s k v (resolve j b) tt h)
run-Holds s k v (answer j t ∷ cs) u h =
    run-Holds (act s (answer j t)) k (judge k v (answer j t)) cs u
      (act-Holds s k v (answer j t) tt h)
run-Holds s k v (cancels ∷ cs) u h =
    run-Holds (act s cancels) k (judge k v cancels) cs u (act-Holds s k v cancels tt h)
run-Holds s k v (take j stop ∷ cs) u h =
    run-Holds (act s (take j stop)) k (judge k v (take j stop)) cs u.1
      (act-Holds s k v (take j stop) (u.0, tt) h)

abbrev pub settled : Verdict → Bool
settled v = elim v.approved [ none ↦ false | some _ ↦ true ]

Holds-sentence :
    (w : Verdict) (o : Option PendingApproval) (stop : Bool)
    → Holds w o
    → (decided o ≡ settled w) × (resolution o stop ≡ sentence w.approved w.response stop)
Holds-sentence w none stop h = absurd h
Holds-sentence w (some e) stop (p, q) = (rw p, λ i. sentence (p i) (q i) stop)

request_open :
    (s : Approvals) (c n a : String)
    → IsValid s
    → Holds open_verdict (find (request_approval s c n a).0 (request_approval s c n a).1.pending)
unfolding request_approval
request_open s c n a v =
    rw (emplace_fresh (open_entry name c n a) s.pending fresh, find_cons, (eq_iff name name).1 refl)
      (refl, refl)
  where
    name : String
    name = approval_name s.next_approval_id

    fresh : find (open_entry name c n a).id s.pending ≡ none
    fresh = find_fresh s.next_approval_id s.pending v.below

-- If pending ids are distinct and made from numbers handed out before, then from the request of an
-- approval on, through any calls in any order but a wait for it, the waiting
-- worker is woken exactly when a decision was made or a stop was requested; it is then handed the
-- last decision and its answer, or a rejection if a stop was requested, and the approval is gone.
pub request_run_wait :
    (s : Approvals) (c n a : String) (cs : List Call) (stop : Bool)
    → IsValid s
    → Untaken (request_approval s c n a).0 cs
    → let k = (request_approval s c n a).0 in
      let end = run (request_approval s c n a).1 cs in
      let v = verdict k open_verdict cs in
      (wait_ready end k stop ≡ settled v || stop)
      × ((wait_take end k stop).0 ≡ sentence v.approved v.response stop)
      × (find k (wait_take end k stop).1.pending ≡ none)
unfolding wait_ready wait_take
request_run_wait s c n a cs stop v u =
    let k = (request_approval s c n a).0 in
    let end = run (request_approval s c n a).1 cs in
    let w = verdict k open_verdict cs in
    let held =
      Holds-sentence w (find k end.pending) stop
        (run-Holds (request_approval s c n a).1 k open_verdict cs u (request_open s c n a v)) in
    let valid = run-IsValid (request_approval s c n a).1 cs (request-IsValid s v c n a) in
    (ap (◌|| stop) held.0, held.1, find-erase_self k end.pending valid.distinct)
