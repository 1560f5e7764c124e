-- ===== src/Coalescer/Order.antt =====
-- The text of each message on its way through the coalescer of src/app/streaming_coalescer.cpp.
use Prim.Native.String.{String}
use Prim.Native.String
use text.Mathlib.TextLemmas.{nil-append, append_assoc, append-nil}
use yac.Common.{
  ℕ, ◌≡◌, refl, sym, ap, ◌∙◌, subst, inl, inr, true, false, List, [], ◌∷◌, ◌++◌, map, arith, Option,
  none, some, ◌==◌, if◌then◌else◌, Bool-cases,
}
use yac.Chat.Event.{ChatEvent, TextDeltaEvent}
use yac.Coalescer.{
  as_delta, dispatch_as, StreamingCoalescer, append_text, add_delta, post_event, drain,
  post_drained, flush, dispatch, Happening, dispatches, timer, step, run,
}

abbrev piece : ℕ → TextDeltaEvent → String
piece id d = if d.message_id == id then d.text else ""

abbrev piece_of : ℕ → Option TextDeltaEvent → String
piece_of id (some d) = piece id d
piece_of id none = ""

abbrev event_text : ℕ → ChatEvent → String
event_text id e = piece_of id (as_delta e)

-- The text of a message in a list of events.
unfoldable pub text_of : ℕ → List ChatEvent → String
text_of id [] = ""
text_of id (e ∷ events) = String.◌++◌ (event_text id e) (text_of id events)

abbrev pending_text : ℕ → List TextDeltaEvent → String
pending_text id pending = text_of id (map ChatEvent.text_delta pending)

-- The text that has come in: what was posted, and what waits.
pub received : ℕ → StreamingCoalescer → String
received id s = String.◌++◌ (text_of id s.posted) (pending_text id s.pending_deltas)

abbrev Absent : ℕ → List TextDeltaEvent → Type 0
Absent id [] = Unit {0}
Absent id (p ∷ pending) = ((p.message_id == id) ≡ false) × Absent id pending

abbrev Distinct : List TextDeltaEvent → Type 0
Distinct [] = Unit {0}
Distinct (p ∷ pending) = Absent p.message_id pending × Distinct pending

text_of-append :
    (id : ℕ) (xs ys : List ChatEvent)
    → text_of id (xs ++ ys) ≡ String.◌++◌ (text_of id xs) (text_of id ys)
unfolding text_of
text_of-append id [] ys = sym (nil-append (text_of id ys))
text_of-append id (x ∷ xs) ys =
    ap (String.◌++◌ (event_text id x)) (text_of-append id xs ys)
    ∙ sym (append_assoc (event_text id x) (text_of id xs) (text_of id ys))

pending_text-Absent :
    (id : ℕ) (pending : List TextDeltaEvent) → Absent id pending → pending_text id pending ≡ ""
unfolding text_of
pending_text-Absent id [] h = refl
pending_text-Absent id (p ∷ pending) (other, h) =
    rw (other) (nil-append (pending_text id pending) ∙ pending_text-Absent id pending h)

add_delta-Absent :
    (id : ℕ) (pending : List TextDeltaEvent) (d : TextDeltaEvent)
    → Absent id pending
    → (d.message_id == id) ≡ false
    → Absent id (add_delta pending d)
unfolding add_delta
add_delta-Absent id [] d h other = (other, tt)
add_delta-Absent id (p ∷ pending) d (a, h) other =
    elim (Bool-cases (p.message_id == d.message_id)) [
      | inl e ↦ rw (e) (a, h)
      | inr e ↦ rw (e) (a, add_delta-Absent id pending d h other)
    ]

add_delta-Distinct :
    (pending : List TextDeltaEvent) (d : TextDeltaEvent)
    → Distinct pending
    → Distinct (add_delta pending d)
unfolding add_delta
add_delta-Distinct [] d h = (tt, tt)
add_delta-Distinct (p ∷ pending) d (a, h) = elim (Bool-cases (p.message_id == d.message_id)) [
  | inl e ↦ rw (e) (a, h)
  | inr e ↦
      let other : (d.message_id == p.message_id) ≡ false = ground (arith, e) in
      rw (e) (add_delta-Absent p.message_id pending d a other, add_delta-Distinct pending d h)
]

-- A piece is text behind the text that waits for its message.
piece_append :
    (id : ℕ) (p d : TextDeltaEvent) (rest : String)
    → (p.message_id == d.message_id) ≡ true
    → ((p.message_id == id) ≡ true → rest ≡ "")
    → String.◌++◌ (piece id (append_text p d.text)) rest
      ≡ String.◌++◌ (String.◌++◌ (piece id p) rest) (piece id d)
piece_append id p d rest e alone = elim (Bool-cases (p.message_id == id)) [
  | inl mine ↦
      let its : (d.message_id == id) ≡ true = ground (arith, e, mine) in
      rw (mine, its, alone mine)
        (append-nil (String.◌++◌ p.text d.text)
          ∙ ap (λ t. String.◌++◌ t d.text) (sym (append-nil p.text)))
  | inr other ↦
      let its : (d.message_id == id) ≡ false = ground (arith, e, other) in
      rw (other, its) (sym (append-nil (String.◌++◌ "" rest)))
]

pending_text-add_delta :
    (id : ℕ) (pending : List TextDeltaEvent) (d : TextDeltaEvent)
    → Distinct pending
    → pending_text id (add_delta pending d) ≡ String.◌++◌ (pending_text id pending) (piece id d)
unfolding add_delta text_of
pending_text-add_delta id [] d h = append-nil (piece id d) ∙ sym (nil-append (piece id d))
pending_text-add_delta id (p ∷ pending) d (a, h) =
    elim (Bool-cases (p.message_id == d.message_id)) [
      | inl e ↦
          let absent : (p.message_id == id) ≡ true → pending_text id pending ≡ "" = λ mine.
            let same_id : p.message_id ≡ id = ground (arith, mine) in
            pending_text-Absent id pending (subst (λ k. Absent k pending) same_id a) in
          rw (e) (piece_append id p d (pending_text id pending) e absent)
      | inr e ↦ rw (e) (
          ap (String.◌++◌ (piece id p)) (pending_text-add_delta id pending d h)
          ∙ sym (append_assoc (piece id p) (pending_text id pending) (piece id d)))
    ]

-- The text that a happening brings for a message.
abbrev brought : ℕ → Happening → String
brought id (dispatches event) = event_text id event
brought id timer = ""

pub brought_by : ℕ → List Happening → String
brought_by id [] = ""
brought_by id (h ∷ happenings) = String.◌++◌ (brought id h) (brought_by id happenings)

flush-received : (id : ℕ) (s : StreamingCoalescer) → text_of id (flush s).posted ≡ received id s
unfolding flush drain post_drained received
flush-received id s = text_of-append id s.posted (map ChatEvent.text_delta s.pending_deltas)

dispatch-received :
    (id : ℕ) (s : StreamingCoalescer) (event : ChatEvent) (o : Option TextDeltaEvent)
    → as_delta event ≡ o
    → Distinct s.pending_deltas
    → (received id (dispatch_as s event o) ≡ String.◌++◌ (received id s) (piece_of id o))
      × Distinct (dispatch_as s event o).pending_deltas
unfolding received flush drain post_drained post_event text_of
dispatch-received id s event (some d) e h = (
  ap (String.◌++◌ (text_of id s.posted)) (pending_text-add_delta id s.pending_deltas d h)
      ∙ sym (append_assoc (text_of id s.posted) (pending_text id s.pending_deltas) (piece id d)),
  add_delta-Distinct s.pending_deltas d h,
)
dispatch-received id s event none e h =
    let before = s.posted ++ map ChatEvent.text_delta s.pending_deltas in
    let said =
      text_of-append id before (event ∷ [])
      ∙ ap (λ o. String.◌++◌ (text_of id before) (String.◌++◌ (piece_of id o) "")) e
      ∙ append-nil (text_of id before)
      ∙ text_of-append id s.posted (map ChatEvent.text_delta s.pending_deltas) in
    (ap (λ t. String.◌++◌ t "") said, tt)

timer-received :
    (id : ℕ) (s : StreamingCoalescer) → received id (flush s) ≡ String.◌++◌ (received id s) ""
unfolding received flush drain post_drained text_of
timer-received id s =
    ap (λ t. String.◌++◌ t "")
      (text_of-append id s.posted (map ChatEvent.text_delta s.pending_deltas))

step-received :
    (id : ℕ) (s : StreamingCoalescer) (h : Happening)
    → Distinct s.pending_deltas
    → (received id (step s h) ≡ String.◌++◌ (received id s) (brought id h))
      × Distinct (step s h).pending_deltas
unfolding step dispatch flush drain post_drained
step-received id s (dispatches event) d = dispatch-received id s event (as_delta event) refl d
step-received id s timer d = (timer-received id s, tt)

-- However the timer and the events fall, as long as no flush is interrupted, the text of a message
-- that is posted, with the text of it that waits, is all that came in for it, in order.
pub received-run :
    (id : ℕ) (s : StreamingCoalescer) (happenings : List Happening)
    → Distinct s.pending_deltas
    → received id (run s happenings) ≡ String.◌++◌ (received id s) (brought_by id happenings)
unfolding run brought_by
received-run id s [] d = sym (append-nil (received id s))
received-run id s (h ∷ happenings) d =
    let (one, d') = step-received id s h d in
    received-run id (step s h) happenings d'
    ∙ ap (λ t. String.◌++◌ t (brought_by id happenings)) one
    ∙ append_assoc (received id s) (brought id h) (brought_by id happenings)
