-- ===== src/Service/Worker/Turn.antt =====
-- What a turn of `WorkerLoop` of src/chat/chat_service.cpp finishes.
use Prim.Native.String.{String}
use yac.Common.{
  ℕ, suc, ◌≡◌, refl, sym, ◌∙◌, ap, subst, ◌⊎◌, inl, inr, ◌<◌, Option, none, some, List, [], ◌∷◌,
  ◌++◌, arith, false,
}
use yac.Service.State.{Service, Env, Provider, PendingPrompt}
use yac.Service.Calls.{Call, emit_queue_depth}
use yac.Service.Quiet.{finished_ids}
use yac.Service.Quiet.Calls.{yield-Quiet}
use yac.Service.Tools.{yield_to}
use yac.Service.Streams.Silence.{same-Mild, yield-Mild, tell-Mild, emit-Mild}
use yac.Service.Rounds.Finish.{Mild, Mild-trans}
use yac.Service.Prompt.{process_prompt}
use yac.Service.Prompt.Once.{process_prompt-finished}
use yac.Service.Prompt.Returns.{Returns, IsPlain, process_prompt-Returns}
use yac.Service.Worker.{active_event, take_prompt, end_prompt, turn, worker_turn}

some_inj : {s t : Service} → some s ≡ some t → s ≡ t
some_inj e = ground (arith, e)

-- One message was finished, or none and the generation has risen.
abbrev pub OneOrPassed : Service → Service → Type 0
OneOrPassed s t =
    ((i : ℕ) × (finished_ids t.log ≡ finished_ids s.log ++ i ∷ []))
    ⊎ ((finished_ids t.log ≡ finished_ids s.log) × (s.generation < t.generation))

module _ (env : Env) (others : ℕ → List Call) where
  take_prompt-Mild :
      (s : Service) (p : PendingPrompt) (ps : List PendingPrompt)
      → Mild s (take_prompt env others s p ps)
  unfolding take_prompt emit_queue_depth active_event
  take_prompt-Mild s p ps =
      let taken = same-Mild s _ refl refl in
      let shown = Mild-trans taken (tell-Mild env others _ _ refl) in
      Mild-trans (Mild-trans shown (emit-Mild _ _ refl)) (yield-Mild env others _)

  before : (s t u : Service) → Mild s t → OneOrPassed t u → OneOrPassed s u
  before s t u m (inl (i, e)) = inl (i, e ∙ ap (◌++ (i ∷ [])) m.finished)
  before s t u m (inr (e, l)) = inr (e ∙ m.finished, omega (arith, l, m.generation))

  behind : (s t u : Service) → OneOrPassed s t → Mild t u → OneOrPassed s u
  behind s t u (inl (i, e)) m = inl (i, m.finished ∙ e)
  behind s t u (inr (e, l)) m = inr (m.finished ∙ e, omega (arith, l, m.generation))

  -- `t` is what a turn leaves of a prompt that was processed.
  abbrev InTurn : Service → Option Service → Type 0
  InTurn s none = Unit {0}
  InTurn s (some t) = OneOrPassed s t

  end_prompt-InTurn :
      (s : Service) (o : Option Service)
      → ((u : Service) → o ≡ some u → OneOrPassed s u)
      → InTurn s (end_prompt env others o)
  unfolding end_prompt
  end_prompt-InTurn s none k = tt
  end_prompt-InTurn s (some u) k =
      let u1 = yield_to env others u in
      let idle = Mild-trans (yield-Mild env others u) (same-Mild u1 _ refl refl) in
      behind s u _ (k u refl) (Mild-trans idle (yield-Mild env others _))

  processed :
      (n fuel : ℕ) (p : PendingPrompt) (s u : Service)
      → process_prompt env others n fuel p.id p.content s.generation s ≡ some u
      → OneOrPassed s u
  processed n fuel p s u ran =
      either (
        process_prompt-finished env others n fuel p.id p.content s.generation s u (omega arith) ran)
    where
      either :
          (finished_ids u.log ≡ finished_ids s.log ++ s.next_id ∷ [])
            ⊎ ((finished_ids u.log ≡ finished_ids s.log) × (s.generation < u.generation))
          → OneOrPassed s u
      either (inl e) = inl (s.next_id, e)
      either (inr x) = inr x

  turn-InTurn :
      (n fuel : ℕ) (p : PendingPrompt) (ps : List PendingPrompt) (s : Service)
      → InTurn s (turn env others n fuel (p ∷ ps) s)
  unfolding turn
  turn-InTurn n fuel p ps s =
      let s1 = take_prompt env others s p ps in
      end_prompt-InTurn s _
        (λ u ran. before s s1 u (take_prompt-Mild s p ps) (processed n fuel p s1 u ran))

  -- A turn of the worker that takes a prompt and comes to an end has finished one message, or else
  -- none, and then the generation has risen since the prompt was taken.
  pub worker_turn-OneOrPassed :
      (n fuel : ℕ) (p : PendingPrompt) (ps : List PendingPrompt) (s t : Service)
      → s.pending ≡ p ∷ ps
      → worker_turn env others n fuel s ≡ some t
      → OneOrPassed s t
  unfolding worker_turn
  worker_turn-OneOrPassed n fuel p ps s t queue ran =
      subst (InTurn s) ((ap (λ q. turn env others n fuel q s) (sym queue)) ∙ ran)
        (turn-InTurn n fuel p ps s)

  end_prompt-Returns : (o : Option Service) → Returns o → Returns (end_prompt env others o)
  unfolding end_prompt
  end_prompt-Returns none (t, e) = absurd (cc)
  end_prompt-Returns (some s) r = (_, refl)

  turn-Returns :
      ((provider_id : String) (provider : Provider)
        → env.resolve_provider provider_id ≡ some provider
        → IsPlain provider)
      → (n fuel : ℕ) (s : Service) (ps : List PendingPrompt)
      → Returns (turn env others (suc n) fuel ps s)
  unfolding turn
  turn-Returns plain n fuel s [] = (s, refl)
  turn-Returns plain n fuel s (p ∷ ps) =
      end_prompt-Returns _ (process_prompt-Returns env others plain n fuel p.id p.content _ _)

  worker_turn-turn :
      (n fuel : ℕ) (s : Service)
      → worker_turn env others n fuel s ≡ turn env others n fuel s.pending s
  unfolding worker_turn
  worker_turn-turn n fuel s = refl

  end_prompt-active :
      (o : Option Service) (t : Service) → end_prompt env others o ≡ some t → t.active ≡ false
  unfolding end_prompt
  end_prompt-active none t e = absurd (cc)
  end_prompt-active (some u) t e =
      let u1 = yield_to env others u in
      let idle = record u1 { active = false; active_stop = none } in
      subst (λ v. v.active ≡ false) (some_inj e) (yield-Quiet env others idle).active

  turn-active :
      (n fuel : ℕ) (p : PendingPrompt) (ps : List PendingPrompt) (s t : Service)
      → turn env others n fuel (p ∷ ps) s ≡ some t
      → t.active ≡ false
  unfolding turn
  turn-active n fuel p ps s t e = end_prompt-active _ t e

  -- If every registered provider throws nothing and requests no tool, then with fuel for one round
  -- each turn of the worker that takes a prompt comes to an end, whatever other threads do: the
  -- worker is then not active, and one message is finished, or else none and the generation has
  -- risen.
  pub worker_turn-Returns :
      ((provider_id : String) (provider : Provider)
        → env.resolve_provider provider_id ≡ some provider
        → IsPlain provider)
      → (n fuel : ℕ) (p : PendingPrompt) (ps : List PendingPrompt) (s : Service)
      → s.pending ≡ p ∷ ps
      → (t : Service) × (worker_turn env others (suc n) fuel s ≡ some t)
        × (t.active ≡ false)
        × OneOrPassed s t
  worker_turn-Returns plain n fuel p ps s queue =
      let (t, ran) = turn-Returns plain n fuel s s.pending in
      let taken = ap (λ q. turn env others (suc n) fuel q s) (sym queue) ∙ ran in
      let whole = worker_turn-turn (suc n) fuel s ∙ ran in
      (
        t,
        whole,
        turn-active (suc n) fuel p ps s t taken,
        worker_turn-OneOrPassed (suc n) fuel p ps s t queue whole,
      )
