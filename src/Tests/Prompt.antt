-- ===== src/Tests/Prompt.antt =====
-- A prompt that a provider answers in two pieces.
use Prim.Native.String.{String}
use yac.Common.{◌≡◌, refl, ap, subst, Option, ◌<◌, ◌⊎◌, ◌++◌, false, some, none, [], ◌∷◌, arith}
use yac.Chat.Message.{ChatRole}
use yac.Chat.Event.{ChatEvent}
use yac.History.Summarize.{Stream}
use yac.Service.State.{Service, Env, Provider}
use yac.Service.Quiet.{finished_ids}
use yac.Service.Prompt.{process_prompt}
use yac.Service.Prompt.Once.{process_prompt-finished}
use yac.Service.Prompt.Returns.{process_prompt-Returns, Returns, IsPlain}
use yac.Service.Worker.{worker_turn}
use yac.Service.Worker.Turn.{OneOrPassed, worker_turn-OneOrPassed, worker_turn-Returns}
use yac.Tests.Data.{env, others, busy}

abbrev piece : String → ChatEvent
piece t = ChatEvent.text_delta (record {
  message_id = 0;
  role = ChatRole.assistant;
  text = t;
  provider_id = "openai";
  model = "gpt";
})

abbrev answer : Stream
answer = record {
  events = piece "Hel" ∷ piece "lo" ∷ ChatEvent.finished (record { message_id = 0 }) ∷ [];
  thrown = none;
}

abbrev talker : Provider
talker = record { complete_stream = λ r. answer; context_window = λ m. 1000 }

abbrev talk_env : Env
talk_env = record env { resolve_provider = λ id. some talker }

abbrev or_talker : Option Provider → Provider
or_talker none = talker
or_talker (some p) = p

plain : (id : String) (p : Provider) → talk_env.resolve_provider id ≡ some p → IsPlain p
plain id p e = subst IsPlain (ap (or_talker) e) (λ r. (refl, (refl, (refl, (refl, tt)))))

process_prompt-Returns_example : Returns (process_prompt talk_env others 1 5 2 "hi" 3 busy)
process_prompt-Returns_example = process_prompt-Returns talk_env others plain 0 5 2 "hi" 3 busy

abbrev ended : Returns (process_prompt talk_env others 1 5 2 "hi" 3 busy)
ended = process_prompt-Returns talk_env others plain 0 5 2 "hi" 3 busy

process_prompt-finished_example :
    (finished_ids ended.0.log ≡ finished_ids busy.log ++ busy.next_id ∷ [])
    ⊎ ((finished_ids ended.0.log ≡ finished_ids busy.log) × (3 < ended.0.generation))
process_prompt-finished_example =
    process_prompt-finished talk_env others 1 5 2 "hi" 3 busy ended.0 (omega arith) ended.1

abbrev waiting : Service
waiting = record busy {
  active = false;
  active_stop = none;
  pending = record { id = 7; content = "hi" } ∷ record { id = 8; content = "there" } ∷ [];
}

worker_turn-Returns_example :
    (t : Service) × (worker_turn talk_env others 1 5 waiting ≡ some t)
    × (t.active ≡ false)
    × OneOrPassed waiting t
worker_turn-Returns_example = worker_turn-Returns talk_env others plain 0 5 _ _ waiting refl

abbrev turned :
    (t : Service) × (worker_turn talk_env others 1 5 waiting ≡ some t)
    × (t.active ≡ false)
    × OneOrPassed waiting t
turned = worker_turn-Returns talk_env others plain 0 5 _ _ waiting refl

worker_turn-OneOrPassed_example : OneOrPassed waiting turned.0
worker_turn-OneOrPassed_example =
    worker_turn-OneOrPassed talk_env others 1 5 _ _ waiting turned.0 refl turned.1
