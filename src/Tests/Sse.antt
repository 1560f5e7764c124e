-- ===== src/Tests/Sse.antt =====
-- Two chunks of one event.
use yac.Common.{ℕ, ◌≡◌, refl, ◌≤◌, ◌+◌, List, [], ◌∷◌, arith, false, length}
use yac.Common.Text.{codes}
use yac.Mcp.Sse.{SseParser, no_event, feed_chunk, max_line_bytes}
use yac.Mcp.Sse.Events.{fresh, event_of, print_event, print_field, feed_chunk-print_event}
use yac.Mcp.Sse.Chunks.{feed_all, concat, feed_all-concat}

abbrev start : SseParser
start = record {
  buffer = codes "da";
  pending = record { pending_event = no_event; has_pending_field = false };
}

abbrev chunks : List (List ℕ)
chunks = codes "ta: x" ∷ (10 ∷ 10 ∷ codes "id: 3") ∷ []

small : length start.buffer + length (concat chunks) ≤ max_line_bytes
unfolding concat
small = omega arith

feed_all-concat_example : feed_all start chunks ≡ feed_chunk start (concat chunks)
feed_all-concat_example = feed_all-concat start chunks (refl, (refl, tt)) small

fits : length (print_event (event_of (codes "1") (codes "note") (codes "hi"))) ≤ max_line_bytes
unfolding print_event print_field
fits = omega arith

feed_chunk-print_event_example :
    feed_chunk
      (record { buffer = []; pending = fresh })
      (print_event (event_of (codes "1") (codes "note") (codes "hi")))
    ≡ (
      record { buffer = []; pending = fresh },
      event_of (codes "1") (codes "note") (codes "hi") ∷ [],
    )
feed_chunk-print_event_example =
    feed_chunk-print_event (codes "1") (codes "note") (codes "hi") (refl, refl, tt)
      (refl, refl, (refl, refl, (refl, refl, (refl, refl, tt)))) (refl, refl, (refl, refl, tt)) fits
