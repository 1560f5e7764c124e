-- ===== src/Mcp/Sse/Events.antt =====
-- An event that is written out is parsed back.
use yac.Common.{ℕ, ◌≤◌, ◌≡◌, refl, ap, ◌∙◌, true, false, List, [], ◌∷◌, ◌++◌, arith, ◌==◌, length}
use yac.Common.Text.{codes}
use yac.Common.Int.{negsuc}
use yac.Mcp.Sse.{
  SseEvent, Pending, no_event, max_line_bytes, consume_line, chomp, scan, prepend, feed_chunk,
  field_of, after_colon, value_of, set_field, with_data, flush_event,
}
use yac.Common.Text.{IsLine}
use yac.Mcp.Sse.Chunks.{scan-IsLine, feed-scan, parser_of}

-- A value that fits a line: no newline and no carriage return.
abbrev pub IsValue : List ℕ → Type 0
IsValue [] = Unit {0}
IsValue (c ∷ cs) = (c == 10 ≡ false) × (c == 13 ≡ false) × IsValue cs

IsValue-IsLine : (xs : List ℕ) → IsValue xs → IsLine xs
IsValue-IsLine [] h = tt
IsValue-IsLine (c ∷ cs) (a, b, h) = (a, IsValue-IsLine cs h)

chomp-IsValue : (xs : List ℕ) → IsValue xs → chomp xs ≡ xs
unfolding chomp
chomp-IsValue [] h = refl
chomp-IsValue (c ∷ []) (a, b, h) = rw b refl
chomp-IsValue (c ∷ d ∷ cs) (a, b, h) = ap (c ∷◌) (chomp-IsValue (d ∷ cs) h)

-- A line and the text behind it.
scan-line :
    (l rest : List ℕ) (p : Pending)
    → IsValue l
    → scan [] (l ++ 10 ∷ rest) p ≡ prepend (consume_line p l).1 (scan [] rest (consume_line p l).0)
unfolding scan
scan-line l rest p h =
    scan-IsLine l [] (10 ∷ rest) p (IsValue-IsLine l h)
    ∙ ap (λ k. prepend (consume_line p k).1 (scan [] rest (consume_line p k).0)) (chomp-IsValue l h)

-- `name: value` and a newline.
unfoldable pub print_field : List ℕ → List ℕ → List ℕ → List ℕ
print_field name value rest = (name ++ 58 ∷ 32 ∷ value) ++ 10 ∷ rest

unfoldable pub print_event : SseEvent → List ℕ
print_event e =
    print_field (codes "id") e.id
      (print_field (codes "event") e.event (print_field (codes "data") e.payload (10 ∷ [])))

abbrev pub fresh : Pending
fresh = record { pending_event = no_event; has_pending_field = false }

abbrev of_id : List ℕ → Pending
of_id i = record { pending_event = record no_event { id = i }; has_pending_field = true }

abbrev of_event : List ℕ → List ℕ → Pending
of_event i n = record {
  pending_event = record no_event { id = i; event = n };
  has_pending_field = true;
}

abbrev of_data : List ℕ → List ℕ → List ℕ → Pending
of_data i n d = record {
  pending_event = record no_event { id = i; event = n; payload = d };
  has_pending_field = true;
}

abbrev pub event_of : List ℕ → List ℕ → List ℕ → SseEvent
event_of i n d = record { id = i; event = n; payload = d; retry = negsuc 0 }

module _ (i n d : List ℕ) (hi : IsValue i) (hn : IsValue n) (hd : IsValue d) where
  data_line :
      scan [] (print_field (codes "data") d (10 ∷ [])) (of_event i n)
      ≡ ([], fresh, (of_data i n d).pending_event ∷ [])
  unfolding print_field scan consume_line prepend set_field field_of after_colon value_of with_data
      flush_event chomp
  data_line =
      scan-line (codes "data" ++ 58 ∷ 32 ∷ d) (10 ∷ []) (of_event i n)
        ((refl, refl, (refl, refl, (refl, refl, (refl, refl, (refl, refl, (refl, refl, hd)))))))

  event_line :
      (rest : List ℕ)
      → scan [] (print_field (codes "event") n rest) (of_id i) ≡ scan [] rest (of_event i n)
  unfolding print_field consume_line prepend set_field field_of after_colon value_of
  event_line rest = scan-line (codes "event" ++ 58 ∷ 32 ∷ n) rest (of_id i) (
      (
        refl,
        refl,
        (refl, refl, (refl, refl, (refl, refl, (refl, refl, (refl, refl, (refl, refl, hn)))))),
      ))

  id_line :
      (rest : List ℕ) → scan [] (print_field (codes "id") i rest) fresh ≡ scan [] rest (of_id i)
  unfolding print_field consume_line prepend set_field field_of after_colon value_of
  id_line rest =
      scan-line (codes "id" ++ 58 ∷ 32 ∷ i) rest fresh
        ((refl, refl, (refl, refl, (refl, refl, (refl, refl, hi)))))

  -- An event that is written as three lines and a blank line is parsed back, and a parser with
  -- nothing pending is left with nothing pending, if the three values hold no line break and the
  -- text is within the limit of a line.
  pub feed_chunk-print_event :
      length (print_event (event_of i n d)) ≤ max_line_bytes
      → feed_chunk (record { buffer = []; pending = fresh }) (print_event (event_of i n d))
        ≡ (record { buffer = []; pending = fresh }, event_of i n d ∷ [])
  unfolding print_event
  feed_chunk-print_event small =
      feed-scan (record { buffer = []; pending = fresh }) (print_event (event_of i n d)) tt
        (omega (arith, small))
      ∙ ap parser_of (id_line _ ∙ event_line _ ∙ data_line)
