-- ===== src/Coalescer.antt =====
-- src/app/streaming_coalescer.cpp: pieces of answers are gathered and handed to the terminal's thread
-- together, on a timer or before any other event. A flush is one step here: the code unlocks its
-- mutex between taking the pieces and posting them. The map of pieces is a list, in the order in
-- which its keys came; the order in which std::unordered_map gives them is not specified.
pub mod Order
use Prim.Native.String.{String}
use Prim.Native.String
use yac.Common.{ℕ, List, [], ◌∷◌, ◌++◌, ◌==◌, if◌then◌else◌, map, Option, none, some}
use yac.Chat.Event.{ChatEvent, TextDeltaEvent}

-- `posted` is what the terminal's thread handles, the oldest first.
pub record StreamingCoalescer : Type 0 where
  pub pending_deltas : List TextDeltaEvent
  pub posted : List ChatEvent

abbrev pub append_text : TextDeltaEvent → String → TextDeltaEvent
append_text p text = record p { text = String.◌++◌ p.text text }

-- try_emplace, and the text appended where the key was there.
unfoldable pub add_delta : List TextDeltaEvent → TextDeltaEvent → List TextDeltaEvent
add_delta [] d = d ∷ []
add_delta (p ∷ pending) d =
    if p.message_id == d.message_id then append_text p d.text ∷ pending else p ∷ add_delta pending d

unfoldable pub post_event : StreamingCoalescer → ChatEvent → StreamingCoalescer
post_event s event = record s { posted = s.posted ++ (event ∷ []) }

-- The two halves of `FlushLocked`, between which the mutex is free.
unfoldable pub drain : StreamingCoalescer → List TextDeltaEvent × StreamingCoalescer
drain s = (s.pending_deltas, record s { pending_deltas = [] })

unfoldable pub post_drained : StreamingCoalescer → List TextDeltaEvent → StreamingCoalescer
post_drained s drained = record s { posted = s.posted ++ map ChatEvent.text_delta drained }

unfoldable pub flush : StreamingCoalescer → StreamingCoalescer
flush s = let (drained, rest) = drain s in post_drained rest drained

-- std::get_if<TextDeltaEvent>
abbrev pub as_delta : ChatEvent → Option TextDeltaEvent
as_delta (ChatEvent.text_delta d) = some d
as_delta _ = none

abbrev pub dispatch_as : StreamingCoalescer → ChatEvent → Option TextDeltaEvent → StreamingCoalescer
dispatch_as s event (some d) = record s { pending_deltas = add_delta s.pending_deltas d }
dispatch_as s event none = post_event (flush s) event

unfoldable pub dispatch : StreamingCoalescer → ChatEvent → StreamingCoalescer
dispatch s event = dispatch_as s event (as_delta event)

-- What happens to it: an event, or the worker's timer.
pub data Happening : Type 0 where
  dispatches : ChatEvent → Happening
  timer : Happening

unfoldable pub step : StreamingCoalescer → Happening → StreamingCoalescer
step s (dispatches event) = dispatch s event
step s timer = flush s

unfoldable pub run : StreamingCoalescer → List Happening → StreamingCoalescer
run s [] = s
run s (h ∷ happenings) = run (step s h) happenings
