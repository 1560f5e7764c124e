-- ===== src/Service/Worker.antt =====
-- One turn of `WorkerLoop` of src/chat/chat_service.cpp. The generation is read after the prompt was
-- taken from the queue and the lock was released.
pub mod Turn
use Prim.Native.String.{String}
use yac.Common.{
  ℕ, Bool, true, false, ◌≡◌, refl, ◌∙◌, ap, ◌⊎◌, inl, inr, ◌<◌, ◌≤◌, Option, none, some, List, [],
  ◌∷◌, ◌++◌, arith,
}
use yac.Chat.Message.{ChatRole, ChatMessageStatus}
use yac.Chat.Event.{ChatEvent}
use yac.Service.State.{Service, Env, PendingPrompt}
use yac.Service.Calls.{Call, emit_queue_depth}
use yac.Service.Quiet.{finished_ids}
use yac.Service.Tools.{yield_to}
use yac.Service.Streams.{tell}
use yac.Service.Streams.Silence.{same-Mild, yield-Mild, tell-Mild, emit-Mild}
use yac.Service.Rounds.Finish.{Mild, Mild-trans}
use yac.Service.Prompt.{process_prompt}
use yac.Service.Prompt.Once.{process_prompt-finished}

unfoldable pub active_event : ℕ → ChatEvent
active_event i =
    ChatEvent.user_message_active
      (record { message_id = i; role = ChatRole.user; status = ChatMessageStatus.active })

module _ (env : Env) (others : ℕ → List Call) where
  -- The prompt is taken and shown as active.
  unfoldable pub take_prompt : Service → PendingPrompt → List PendingPrompt → Service
  take_prompt s p ps =
      let s1 = record s { pending = ps; active = true; active_stop = some false } in
      yield_to env others (emit_queue_depth (tell env others s1 (active_event p.id)))

  -- The worker is idle again, and other threads run.
  unfoldable pub end_prompt : Option Service → Option Service
  end_prompt none = none
  end_prompt (some s) =
      let s1 = yield_to env others s in
      some (yield_to env others (record s1 { active = false; active_stop = none }))

  unfoldable pub turn : ℕ → ℕ → List PendingPrompt → Service → Option Service
  turn n fuel [] s = some s
  turn n fuel (p ∷ ps) s =
      let s1 = take_prompt s p ps in
      end_prompt (process_prompt env others n fuel p.id p.content s1.generation s1)

  -- One turn of the loop; the wait for a prompt changes nothing.
  unfoldable pub worker_turn : ℕ → ℕ → Service → Option Service
  worker_turn n fuel s = turn n fuel s.pending s
