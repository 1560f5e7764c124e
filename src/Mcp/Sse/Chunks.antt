-- ===== src/Mcp/Sse/Chunks.antt =====
-- How a stream of events is cut into chunks makes no difference to what is parsed.
use yac.Common.{
  ℕ, ◌+◌, ◌≤◌, ◌≡◌, refl, sym, ap, ◌∙◌, false, List, [], ◌∷◌, ◌++◌, arith, ◌==◌, ltb, length,
  append_assoc, append-nil, length-append, Bool-cases, inl, inr,
}
use yac.Common.Text.{IsLine, IsLine-snoc}
use yac.Mcp.Sse.{
  SseEvent, Pending, SseParser, max_line_bytes, consume_line, chomp, scan, prepend, feed_chunk,
}

abbrev Scanned : Type 0
Scanned = List ℕ × Pending × List SseEvent

-- One scan goes on where another stopped.
go_on : Scanned → List ℕ → Scanned
go_on (line, p, events) ys = let (line', p', more) = scan line ys p in (line', p', events ++ more)

go_on-prepend :
    (es : List SseEvent) (x : Scanned) (ys : List ℕ)
    → go_on (prepend es x) ys ≡ prepend es (go_on x ys)
unfolding go_on prepend
go_on-prepend es (line, p, events) ys =
    let (r, q, more) = scan line ys p in ap (λ e. (r, q, e)) (append_assoc es events more)

go_on-none : (line ys : List ℕ) (p : Pending) → go_on (line, p, []) ys ≡ scan line ys p
unfolding go_on
go_on-none line ys p = refl

pub scan-IsLine :
    (xs line ys : List ℕ) (p : Pending)
    → IsLine xs
    → scan line (xs ++ ys) p ≡ scan (line ++ xs) ys p
unfolding scan
scan-IsLine [] line ys p h = ap (λ l. scan l ys p) (sym (append-nil line))
scan-IsLine (c ∷ cs) line ys p (e, h) =
    rw e (
      scan-IsLine cs (line ++ c ∷ []) ys p h
      ∙ ap (λ l. scan l ys p) (append_assoc line (c ∷ []) cs))

-- What a scan keeps is a line.
rest-IsLine : (xs line : List ℕ) (p : Pending) → IsLine line → IsLine (scan line xs p).0
unfolding scan prepend
rest-IsLine [] line p h = h
rest-IsLine (c ∷ cs) line p h = elim (Bool-cases (c == 10)) [
  | inl end ↦ rw end (rest-IsLine cs [] _ tt)
  | inr more ↦ rw more (rest-IsLine cs (line ++ c ∷ []) p (IsLine-snoc line c h more))
]

scan-append :
    (xs : List ℕ) (line ys : List ℕ) (p : Pending)
    → scan line (xs ++ ys) p ≡ go_on (scan line xs p) ys
unfolding scan
scan-append [] line ys p = sym (go_on-none line ys p)
scan-append (c ∷ cs) line ys p =
    let (p1, done) = consume_line p (chomp line) in
    elim (Bool-cases (c == 10)) [
      | inl end ↦ rw end (
          ap (prepend done) (scan-append cs [] ys p1) ∙ sym (go_on-prepend done (scan [] cs p1) ys))
      | inr more ↦ rw more (scan-append cs (line ++ c ∷ []) ys p)
    ]

length-rest : (xs line : List ℕ) (p : Pending) → length (scan line xs p).0 ≤ length line + length xs
unfolding scan prepend
length-rest [] line p = omega arith
length-rest (c ∷ cs) line p = elim (Bool-cases (c == 10)) [
  | inl end ↦ rw end (omega (arith, length-rest cs [] (consume_line p (chomp line)).0))
  | inr more ↦
      rw more (omega (arith, length-rest cs (line ++ c ∷ []) p, length-append line (c ∷ [])))
]

-- A parser between two chunks: no newline is left in its buffer.
abbrev pub IsBetween : SseParser → Type 0
IsBetween s = IsLine s.buffer

pub feed_all : SseParser → List (List ℕ) → SseParser × List SseEvent
feed_all s [] = (s, [])
feed_all s (c ∷ cs) =
    let (s1, done) = feed_chunk s c in let (s2, events) = feed_all s1 cs in (s2, done ++ events)

unfoldable pub concat : List (List ℕ) → List ℕ
concat [] = []
concat (c ∷ cs) = c ++ concat cs

abbrev whole : SseParser → List ℕ → Scanned
whole s xs = scan s.buffer xs s.pending

abbrev pub parser_of : Scanned → SseParser × List SseEvent
parser_of (line, p, events) = (record { buffer = line; pending = p }, events)

-- Without an oversized line, feeding a chunk is one scan from the buffer.
pub feed-scan :
    (s : SseParser) (xs : List ℕ)
    → IsBetween s
    → length s.buffer + length xs ≤ max_line_bytes
    → feed_chunk s xs ≡ parser_of (whole s xs)
unfolding feed_chunk
feed-scan s xs h small = rw (scan-IsLine s.buffer [] xs s.pending h) (rw (in_bounds) refl)
  where
    in_bounds : ltb max_line_bytes (length (whole s xs).0) ≡ false
    in_bounds = ground (arith, length-rest xs s.buffer s.pending, small)

after_first : SseParser × List SseEvent → List (List ℕ) → SseParser × List SseEvent
unfolding feed_all
after_first (s, done) cs = let (t, events) = feed_all s cs in (t, done ++ events)

-- Text that is cut into chunks in any way, with no more of it than the limit of a line, is parsed
-- to the same events, and leaves the same parser, as the text in one chunk.
pub feed_all-concat :
    (s : SseParser) (cs : List (List ℕ))
    → IsBetween s
    → length s.buffer + length (concat cs) ≤ max_line_bytes
    → feed_all s cs ≡ feed_chunk s (concat cs)
unfolding feed_all concat go_on after_first scan
feed_all-concat s [] h small = sym (feed-scan s [] h small)
feed_all-concat s (c ∷ cs) h small =
    let w = whole s c in
    let s1 : SseParser = record { buffer = w.0; pending = w.1 } in
    let between = rest-IsLine c s.buffer s.pending h in
    let cut = length-append c (concat cs) in
    let kept : length s1.buffer + length (concat cs) ≤ max_line_bytes =
      omega (arith, length-rest c s.buffer s.pending, cut, small) in
    ap (λ x. after_first x cs) (feed-scan s c h (omega (arith, cut, small)))
    ∙ ap (λ x. (x.0, w.2 ++ x.1))
        (feed_all-concat s1 cs between kept ∙ feed-scan s1 (concat cs) between kept)
    ∙ sym (ap parser_of (scan-append c s.buffer (concat cs) s.pending))
    ∙ sym (feed-scan s (c ++ concat cs) h small)
