-- ===== src/Mcp/Sse.antt =====
-- The parser of server-sent events, src/mcp/sse_parser.cpp, over lists of bytes. `Pending` holds
-- `pending_event_` and `has_pending_field_`; the search for the next newline and the cut at it are
-- one scan. The field `data` of an event is `payload` here.
pub mod Chunks
pub mod Events
use yac.Common.{
  ℕ, zero, suc, ◌+◌, ◌*◌, ◌-◌, ◌≤◌, Bool, true, false, ◌&&◌, not, Option, none, some, List, [], ◌∷◌,
  ◌++◌, if◌then◌else◌, ◌==◌, ltb, leb, length,
}
use yac.Common.Text.{codes, same}
use yac.Common.Int.{ℤ, pos, negsuc}

pub record SseEvent : Type 0 where
  pub id : List ℕ
  pub event : List ℕ
  pub payload : List ℕ
  pub retry : ℤ

abbrev pub no_event : SseEvent
no_event = record { id = []; event = []; payload = []; retry = negsuc 0 }

pub record Pending : Type 0 where
  pub pending_event : SseEvent
  pub has_pending_field : Bool

pub record SseParser : Type 0 where
  pub buffer : List ℕ
  pub pending : Pending

abbrev pub max_line_bytes : ℕ
max_line_bytes = 67108864

-- What stands before the first colon, and what stands behind it, if there is one.
pub field_of : List ℕ → List ℕ
field_of [] = []
field_of (c ∷ cs) = if c == 58 then [] else c ∷ field_of cs

pub after_colon : List ℕ → List ℕ
after_colon [] = []
after_colon (c ∷ cs) = if c == 58 then cs else after_colon cs

-- One blank at the front of a value is left out.
pub value_of : List ℕ → List ℕ
value_of [] = []
value_of (c ∷ cs) = if c == 32 then cs else c ∷ cs

-- `std::from_chars` of a number that has to take the whole text.
pub digits_value : ℕ → List ℕ → Option ℕ
digits_value n [] = some n
digits_value n (c ∷ cs) = if leb 48 c && leb c 57 then digits_value (n * 10 + (c - 48)) cs else none

pub digits_text : List ℕ → Option ℕ
digits_text [] = none
digits_text (c ∷ cs) = digits_value 0 (c ∷ cs)

pub int_of : Bool → Option ℕ → Option ℤ
int_of minus none = none
int_of false (some n) = if ltb n 2147483648 then some (pos n) else none
int_of true (some zero) = some (pos 0)
int_of true (some (suc n)) = if ltb n 2147483648 then some (negsuc n) else none

pub from_chars : List ℕ → Option ℤ
from_chars [] = none
from_chars (c ∷ cs) =
    if c == 45 then int_of true (digits_text cs) else int_of false (digits_text (c ∷ cs))

pub flush_event : Pending → Pending × List SseEvent
flush_event p =
    if p.has_pending_field
    then (record { pending_event = no_event; has_pending_field = false }, p.pending_event ∷ [])
    else (p, [])

pub with_data : List ℕ → List ℕ → List ℕ
with_data [] value = value
with_data (c ∷ cs) value = (c ∷ cs) ++ (10 ∷ value)

pub set_retry : Option ℤ → Pending → Pending
set_retry none p = p
set_retry (some n) p = record {
  pending_event = record p.pending_event { retry = n };
  has_pending_field = true;
}

pub set_field : Pending → List ℕ → List ℕ → Pending
set_field p field value =
    let e = p.pending_event in
    if same field (codes "data")
    then record {
      pending_event = record e { payload = with_data e.payload value };
      has_pending_field = true;
    }
    else if same field (codes "id")
    then record { pending_event = record e { id = value }; has_pending_field = true }
    else if same field (codes "event")
    then record { pending_event = record e { event = value }; has_pending_field = true }
    else if same field (codes "retry")
    then set_retry (from_chars value) p
    else p

-- The new pending event and the events that the line completes.
pub consume_line : Pending → List ℕ → Pending × List SseEvent
consume_line p [] = flush_event p
consume_line p (c ∷ cs) =
    if c == 58
    then (p, [])
    else (set_field p (field_of (c ∷ cs)) (value_of (after_colon (c ∷ cs))), [])

-- A carriage return at the end of a line is left out.
pub chomp : List ℕ → List ℕ
chomp [] = []
chomp (c ∷ []) = if c == 13 then [] else c ∷ []
chomp (c ∷ d ∷ cs) = c ∷ chomp (d ∷ cs)

-- What a line completed comes before what the rest of the text completes.
pub prepend : List SseEvent → List ℕ × Pending × List SseEvent → List ℕ × Pending × List SseEvent
prepend done (line, p, events) = (line, p, done ++ events)

-- The loop over the lines; `line` is what was read since the last newline.
pub scan : List ℕ → List ℕ → Pending → List ℕ × Pending × List SseEvent
scan line [] p = (line, p, [])
scan line (c ∷ cs) p =
    let (p1, done) = consume_line p (chomp line) in
    let next_lines = scan [] cs p1 in
    let longer = scan (line ++ c ∷ []) cs p in if c == 10 then prepend done next_lines else longer

pub feed_chunk : SseParser → List ℕ → SseParser × List SseEvent
feed_chunk s chunk =
    let (rest, p, events) = scan [] (s.buffer ++ chunk) s.pending in
    (record { buffer = if ltb max_line_bytes (length rest) then [] else rest; pending = p }, events)
