-- ===== src/Tests/Coalescer.antt =====
-- Pieces of an answer, gathered by the timer and overtaken in an interrupted flush.
use Prim.Native.String.{String}
use Prim.Native.String
use yac.Common.{◌≡◌, refl, List, [], ◌∷◌}
use yac.Chat.Message.{ChatRole}
use yac.Chat.Event.{ChatEvent, TextDeltaEvent}
use yac.Coalescer.{
  StreamingCoalescer, Happening, dispatches, timer, run, dispatch, flush, drain, post_drained,
  post_event, add_delta,
}
use yac.Coalescer.Order.{received, brought_by, received-run}

abbrev delta : String → TextDeltaEvent
delta text = record {
  message_id = 1;
  role = ChatRole.assistant;
  text = text;
  provider_id = "openai";
  model = "gpt";
}

abbrev empty : StreamingCoalescer
empty = record { pending_deltas = []; posted = [] }

abbrev happenings : List Happening
happenings =
    dispatches (ChatEvent.text_delta (delta "a"))
    ∷ timer
    ∷ dispatches (ChatEvent.text_delta (delta "b"))
    ∷ dispatches ChatEvent.conversation_cleared
    ∷ []

received-run_example :
    received 1 (run empty happenings) ≡ String.◌++◌ (received 1 empty) (brought_by 1 happenings)
received-run_example = received-run 1 empty happenings tt

-- The worker has taken "a" and not posted it yet, as "b" and an event that is no piece come in: they
-- are posted before it.
interrupted : StreamingCoalescer
interrupted =
    let (drained, rest) = drain (dispatch empty (ChatEvent.text_delta (delta "a"))) in
    post_drained
      (dispatch (dispatch rest (ChatEvent.text_delta (delta "b"))) ChatEvent.conversation_cleared)
      drained

overtaken :
    interrupted.posted
    ≡ ChatEvent.text_delta (delta "b")
      ∷ ChatEvent.conversation_cleared
      ∷ ChatEvent.text_delta (delta "a")
      ∷ []
unfolding interrupted drain post_drained dispatch flush post_event add_delta
overtaken = refl
