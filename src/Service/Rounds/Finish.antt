-- ===== src/Service/Rounds/Finish.antt =====
-- A round of tool calls, src/chat/tool_round_runner.cpp, finishes no message.
use Prim.Native.String.{String}
use yac.Common.{ℕ, ◌≡◌, refl, ◌∙◌, ◌≤◌, inl, inr, List, [], ◌∷◌, arith}
use yac.Chat.Message.{ToolCallRequest}
use yac.Service.State.{Service, Env}
use yac.Service.Calls.{Call}
use yac.Service.Quiet.{Quiet, finished_ids}
use yac.Service.Rounds.{Step, go_on, leave, stuck, and_then, run_tools}
use yac.Service.Rounds.Keeps.{Keeps}
use yac.Service.Rounds.Results.{Appended, append_message, One, run_one-One}

-- No message was finished, and the generation did not fall.
pub record Mild (s t : Service) : Type 0 where
  pub finished : finished_ids t.log ≡ finished_ids s.log
  pub generation : s.generation ≤ t.generation

pub Mild-trans : {s t u : Service} → Mild s t → Mild t u → Mild s u
Mild-trans p q = record {
  finished = q.finished ∙ p.finished;
  generation = omega (arith, p.generation, q.generation);
}

pub Quiet-Mild : {s t : Service} → Quiet s t → Mild s t
Quiet-Mild q = record { finished = q.finished; generation = q.generation }

Keeps-Mild : {s t : Service} → Keeps s t → Mild s t
Keeps-Mild k = record { finished = k.finished; generation = k.generation }

abbrev pub MildStep : Service → Step → Type 0
MildStep s (go_on t) = Mild s t
MildStep s (leave t) = Mild s t
MildStep s stuck = Unit {0}

Appended-Mild : (s t : Service) (r : ToolCallRequest) (g : ℕ) → Appended s r g t → Mild s t
unfolding Appended append_message
Appended-Mild s t r g (u, m, k, own, a, l) = record {
  finished = l.finished ∙ k.finished;
  generation = omega (arith, k.generation, l.generation);
}

One-MildStep : (s : Service) (r : ToolCallRequest) (g : ℕ) (x : Step) → One s r g x → MildStep s x
One-MildStep s r g stuck h = tt
One-MildStep s r g (leave t) (inl k) = Keeps-Mild k
One-MildStep s r g (leave t) (inr a) = Appended-Mild s t r g a
One-MildStep s r g (go_on t) a = Appended-Mild s t r g a

weaken : (s t : Service) (x : Step) → Mild s t → MildStep t x → MildStep s x
weaken s t stuck p q = tt
weaken s t (leave u) p q = Mild-trans p q
weaken s t (go_on u) p q = Mild-trans p q

and_then-MildStep :
    (s : Service) (x : Step) (next : Service → Step)
    → MildStep s x
    → ((t : Service) → MildStep t (next t))
    → MildStep s (and_then x next)
and_then-MildStep s stuck next h k = tt
and_then-MildStep s (leave t) next h k = h
and_then-MildStep s (go_on t) next h k = weaken s t (next t) h (k t)

pub run_tools-MildStep :
    (env : Env) (others : ℕ → List Call) (fuel : ℕ) (s : Service) (cards : List (String × ℕ))
    (rs : List ToolCallRequest) (g : ℕ)
    → MildStep s (run_tools env others fuel s cards rs g)
unfolding run_tools
run_tools-MildStep env others fuel s cards [] g = record {
  finished = refl;
  generation = omega arith;
}
run_tools-MildStep env others fuel s cards (r ∷ rs) g =
    and_then-MildStep s _ _ (One-MildStep s r g _ (run_one-One env others fuel s cards r g))
      (λ t. run_tools-MildStep env others fuel t cards rs g)
