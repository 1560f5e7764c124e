-- ===== src/Service/Rounds/Answers.antt =====
-- One result per request: `ToolRoundRunner::Run` of src/chat/tool_round_runner.cpp against the list of
-- requests.
use Prim.Native.String.{String}
use yac.Common.{
  ℕ, ◌≡◌, refl, sym, ap, ◌∙◌, ◌≤◌, ◌<◌, ◌⊎◌, inl, inr, true, List, [], ◌∷◌, ◌++◌, arith,
  append_assoc, append-nil, subst,
}
use yac.Chat.Message.{ChatMessage, ToolCallRequest}
use yac.Service.State.{Service, Env}
use yac.Service.Calls.{Call}
use yac.Service.Quiet.{worker_part, worker_part-append}
use yac.Service.Rounds.{Step, go_on, leave, stuck, and_then, run_tools}
use yac.Service.Rounds.Results.{Answer, Answers, Appended, append_message, One, run_one-One}

worker_part-Answer :
    (h : List ChatMessage) (r : ToolCallRequest) (m : ChatMessage)
    → Answer r m
    → worker_part (h ++ m ∷ []) ≡ worker_part h ++ m ∷ []
unfolding worker_part
worker_part-Answer h r m a = worker_part-append h (m ∷ []) ∙ ground (arith, a.0)

-- One answer more, in a generation that stays.
Appended-worker_part :
    (s t : Service) (r : ToolCallRequest) (g : ℕ)
    → Appended s r g t
    → (s.generation ≤ g)
      × (g ≤ t.generation)
      × (t.active ≡ s.active)
      × (s.active ≡ true
          → s.generation ≡ g
          → t.generation ≡ g
          → (m : ChatMessage) × Answer r m
            × (worker_part t.history ≡ worker_part s.history ++ m ∷ []))
unfolding Appended append_message
Appended-worker_part s t r g (u, m, k, own, a, l) = (
  omega (arith, k.generation, own),
  omega (arith, l.generation, own),
  l.active ∙ k.active,
  λ on e f. (
    m,
    a,
    l.kept (k.active ∙ on) (omega (arith, own, f))
        ∙ worker_part-Answer u.history r m a
        ∙ ap (◌++ (m ∷ [])) (k.kept on (omega (arith, own, e))),
  ),
)

-- What the rest of a round does to the history.
abbrev Many : Service → List ToolCallRequest → ℕ → Step → Type 0
Many s rs g (go_on t) =
    (s.generation ≤ t.generation)
    × (s.active ≡ true
        → s.generation ≡ g
        → t.generation ≡ g
        → (ms : List ChatMessage) × Answers rs ms
          × (worker_part t.history ≡ worker_part s.history ++ ms))
Many s rs g (leave t) = Unit {0}
Many s rs g stuck = Unit {0}

and_then-Many :
    (s : Service) (r : ToolCallRequest) (rs : List ToolCallRequest) (g : ℕ) (x : Step)
    (next : Service → Step)
    → One s r g x
    → ((t : Service) → Many t rs g (next t))
    → Many s (r ∷ rs) g (and_then x next)
and_then-Many s r rs g stuck next h k = tt
and_then-Many s r rs g (leave t) next h k = tt
and_then-Many s r rs g (go_on t) next h k = join (next t) (k t)
  where
    join : (y : Step) → Many t rs g y → Many s (r ∷ rs) g y
    join stuck q = tt
    join (leave u) q = tt
    join (go_on u) (up, q) =
        let (below, above, same, one) = Appended-worker_part s t r g h in
        (
          omega (arith, below, above, up),
          λ on e f.
              let (m, a, w) = one on e (omega (arith, above, up, f)) in
              let (ms, rest, v) = q (same ∙ on) (omega (arith, above, up, f)) f in
              (
                m ∷ ms,
                (a, rest),
                v ∙ ap (◌++ ms) w ∙ append_assoc (worker_part s.history) (m ∷ []) ms,
              ),
        )

-- What a worker of an old generation does to the history.
abbrev pub Stale : Service → Step → Type 0
Stale s (go_on t) = ⊥
Stale s (leave t) = (worker_part t.history ≡ worker_part s.history) ⊎ (worker_part t.history ≡ [])
Stale s stuck = Unit {0}

module _ (env : Env) (others : ℕ → List Call) where
  run_tools-Many :
      (fuel : ℕ) (s : Service) (cards : List (String × ℕ)) (rs : List ToolCallRequest) (g : ℕ)
      → Many s rs g (run_tools env others fuel s cards rs g)
  unfolding run_tools
  run_tools-Many fuel s cards [] g =
      (omega arith, λ on e f. ([], tt, sym (append-nil (worker_part s.history))))
  run_tools-Many fuel s cards (r ∷ rs) g =
      and_then-Many s r rs g _ _ (run_one-One env others fuel s cards r g)
        (λ t. run_tools-Many fuel t cards rs g)

  -- A round that gets through in the worker's own generation, which starts and ends as `g` while a
  -- prompt is active, has added to the worker's part of the history one tool message for each
  -- request, in the order of the requests and with their ids and names, and nothing else, whatever
  -- other threads did in between.
  pub run_tools-Answers :
      (fuel : ℕ) (s t : Service) (cards : List (String × ℕ)) (rs : List ToolCallRequest) (g : ℕ)
      → s.active ≡ true
      → s.generation ≡ g
      → t.generation ≡ g
      → run_tools env others fuel s cards rs g ≡ go_on t
      → (ms : List ChatMessage) × Answers rs ms
        × (worker_part t.history ≡ worker_part s.history ++ ms)
  run_tools-Answers fuel s t cards rs g on e f ran =
      (subst (Many s rs g) ran (run_tools-Many fuel s cards rs g)).1 on e f

  One-Stale :
      (s : Service) (r : ToolCallRequest) (g : ℕ) (x : Step) (next : Service → Step)
      → g < s.generation
      → s.active ≡ true
      → One s r g x
      → Stale s (and_then x next)
  One-Stale s r g stuck next old on h = tt
  One-Stale s r g (leave t) next old on (inl k) = k.wiped on
  One-Stale s r g (leave t) next old on (inr a) =
      absurd (omega (arith, old, (Appended-worker_part s t r g a).0))
  One-Stale s r g (go_on t) next old on a =
      absurd (omega (arith, old, (Appended-worker_part s t r g a).0))

  -- What would follow the first iteration does not matter.
  One-last :
      (s : Service) (r : ToolCallRequest) (g : ℕ) (x : Step) (next next' : Service → Step)
      → g < s.generation
      → s.active ≡ true
      → One s r g x
      → and_then x next ≡ and_then x next'
  One-last s r g stuck next next' old on h = refl
  One-last s r g (leave t) next next' old on h = refl
  One-last s r g (go_on t) next next' old on a =
      absurd (omega (arith, old, (Appended-worker_part s t r g a).0))

  -- While a prompt is active, a worker whose generation has passed adds no result: a round of any
  -- requests is the same as the round of the first of them alone, so that none of the others is
  -- looked at, and if the worker does not still wait, it leaves, with its part of the history as it
  -- was or, after a reset, empty.
  pub run_tools-Stale :
      (fuel : ℕ) (s : Service) (cards : List (String × ℕ)) (r : ToolCallRequest)
      (rs : List ToolCallRequest) (g : ℕ)
      → g < s.generation
      → s.active ≡ true
      → Stale s (run_tools env others fuel s cards (r ∷ rs) g)
        × (run_tools env others fuel s cards (r ∷ rs) g
            ≡ run_tools env others fuel s cards (r ∷ []) g)
  unfolding run_tools
  run_tools-Stale fuel s cards r rs g old on =
      let first = run_one-One env others fuel s cards r g in
      (One-Stale s r g _ _ old on first, One-last s r g _ _ _ old on first)
