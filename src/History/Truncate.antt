-- ===== src/History/Truncate.antt =====
-- What `CompactHistory` keeps and what it drops.
use yac.Common.{
  ℕ, zero, suc, ◌+◌, ◌-◌, ◌≤◌, ◌<◌, min, ◌≡◌, refl, ap, ◌∙◌, sym, ◌⊎◌, true, inl, inr, Bool-cases,
  List, [], ◌∷◌, ◌++◌, arith, false, leb, length, drop, length-drop,
}
use yac.Chat.Message.{ChatMessage, non_system}
use yac.History.{
  count_non_system, system_prefix, from_first_non_system, skip_non_system, compaction_note,
  compact_history, compact, conversation, system_messages,
}

pub count_non_system-conversation :
    (h : List ChatMessage) → count_non_system h ≡ length (conversation h)
unfolding count_non_system conversation
count_non_system-conversation [] = refl
count_non_system-conversation (m ∷ ms) = ground (arith, count_non_system-conversation ms)

pub conversation-append :
    (xs ys : List ChatMessage) → conversation (xs ++ ys) ≡ conversation xs ++ conversation ys
unfolding conversation
conversation-append [] ys = refl
conversation-append (m ∷ ms) ys = ground (arith, conversation-append ms ys)

pub system_messages-append :
    (xs ys : List ChatMessage)
    → system_messages (xs ++ ys) ≡ system_messages xs ++ system_messages ys
unfolding system_messages
system_messages-append [] ys = refl
system_messages-append (m ∷ ms) ys = ground (arith, system_messages-append ms ys)

pub prefix_append : (h : List ChatMessage) → system_prefix h ++ from_first_non_system h ≡ h
unfolding system_prefix from_first_non_system
prefix_append [] = refl
prefix_append (m ∷ ms) = ground (arith, prefix_append ms)

pub conversation-prefix : (h : List ChatMessage) → conversation (system_prefix h) ≡ []
unfolding system_prefix conversation
conversation-prefix [] = refl
conversation-prefix (m ∷ ms) = ground (arith, conversation-prefix ms)

pub conversation-from_first :
    (h : List ChatMessage) → conversation (from_first_non_system h) ≡ conversation h
unfolding from_first_non_system conversation
conversation-from_first [] = refl
conversation-from_first (m ∷ ms) = ground (arith, conversation-from_first ms)

-- The copying loop leaves out the first `k` messages of the conversation that are still to go.
pub conversation-skip :
    (k r n : ℕ) (h : List ChatMessage)
    → r + k ≡ n
    → conversation (skip_non_system r n h) ≡ drop k (conversation h)
unfolding conversation skip_non_system
conversation-skip zero r n [] e = refl
conversation-skip (suc k) r n [] e = refl
conversation-skip zero r n (m ∷ ms) e = ground (arith, conversation-skip zero r n ms e)
conversation-skip (suc k) r n (m ∷ ms) e =
    ground (arith, conversation-skip k (r + 1) n ms, conversation-skip (suc k) r n ms e)

pub system_messages-skip :
    (r n : ℕ) (h : List ChatMessage) → system_messages (skip_non_system r n h) ≡ system_messages h
unfolding system_messages skip_non_system
system_messages-skip r n [] = refl
system_messages-skip r n (m ∷ ms) =
    ground (arith, system_messages-skip r n ms, system_messages-skip (r + 1) n ms)

pub system_messages-prefix :
    (h : List ChatMessage) → system_messages (system_prefix h) ≡ system_prefix h
unfolding system_messages system_prefix
system_messages-prefix [] = refl
system_messages-prefix (m ∷ ms) = ground (arith, system_messages-prefix ms)

system_messages-cons :
    (m : ChatMessage) (ms : List ChatMessage)
    → non_system m ≡ false
    → system_messages (m ∷ ms) ≡ m ∷ system_messages ms
unfolding system_messages
system_messages-cons m ms e = ground arith

-- The shape of every compaction: the leading system messages, a note, and the rest with the
-- oldest `k` messages of the conversation left out.
abbrev pub replaced : List ChatMessage → ChatMessage → ℕ → List ChatMessage
replaced h note k = system_prefix h ++ (note ∷ skip_non_system 0 k (from_first_non_system h))

pub system_messages-replaced :
    (h : List ChatMessage) (note : ChatMessage) (k : ℕ)
    → non_system note ≡ false
    → system_messages (replaced h note k)
      ≡ system_prefix h ++ (note ∷ system_messages (from_first_non_system h))
system_messages-replaced h note k e =
    system_messages-append (system_prefix h) _
    ∙ rw system_messages-prefix (
        ap (system_prefix h ++◌) (
          system_messages-cons note _ e
          ∙ ap (note ∷◌) (system_messages-skip 0 k (from_first_non_system h))))

conversation-cons_system :
    (m : ChatMessage) (ms : List ChatMessage)
    → non_system m ≡ false
    → conversation (m ∷ ms) ≡ conversation ms
unfolding conversation
conversation-cons_system m ms e = ground arith

pub conversation-replaced :
    (h : List ChatMessage) (note : ChatMessage) (k : ℕ)
    → non_system note ≡ false
    → conversation (replaced h note k) ≡ drop k (conversation h)
conversation-replaced h note k e =
    conversation-append (system_prefix h) _
    ∙ rw conversation-prefix (
        conversation-cons_system note _ e
        ∙ conversation-skip k 0 k (from_first_non_system h) (omega arith)
        ∙ ap (drop k) (conversation-from_first h))

drop_zero : (n : ℕ) (xs : List ChatMessage) → n ≡ 0 → drop n xs ≡ xs
drop_zero zero xs h = refl
drop_zero (suc n) xs h = absurd (omega arith)

-- The conversation after compaction is its newest `keep_last` messages, in their order; the
-- messages dropped are the oldest ones.
pub conversation-compact_history :
    (h : List ChatMessage) (k : ℕ)
    → conversation (compact_history h k) ≡ drop (length (conversation h) - k) (conversation h)
unfolding compact_history compaction_note
conversation-compact_history h k =
    rw (← count_non_system-conversation h) (elim (Bool-cases (leb (count_non_system h) k)) [
      | inl few ↦ rw few (sym (drop_zero (count_non_system h - k) (conversation h) (ground arith)))
      | inr many ↦ rw many (
          conversation-replaced h (compaction_note (count_non_system h - k))
            (count_non_system h - k) refl)
    ])

-- What is left of the conversation has min(keep_last, its old length) messages.
pub count_non_system-compact_history :
    (h : List ChatMessage) (k : ℕ)
    → count_non_system (compact_history h k) ≡ min k (count_non_system h)
count_non_system-compact_history h k = omega (
  arith,
  count_non_system-conversation h,
  count_non_system-conversation (compact_history h k),
  ap length (conversation-compact_history h k),
  length-drop (length (conversation h) - k) (conversation h),
)

count_non_system-compact :
    (h : List ChatMessage) (k : ℕ) → count_non_system (compact h k).0 ≡ min k (count_non_system h)
unfolding compact
count_non_system-compact h k = count_non_system-compact_history h k

-- `ChatHistoryStore::Compact` reports the number of messages that the conversation lost.
pub compact_reports :
    (h : List ChatMessage) (k : ℕ)
    → count_non_system (compact h k).0 + (compact h k).1 ≡ count_non_system h
unfolding compact
compact_reports h k = ground (arith, count_non_system-compact_history h k)

pub compact_few : (h : List ChatMessage) (k : ℕ) → count_non_system h ≤ k → compact h k ≡ (h, 0)
unfolding compact compact_history
compact_few h k few = ground arith

-- Compacting again with the same limit changes nothing and reports nothing.
pub compact_idem : (h : List ChatMessage) (k : ℕ) → compact (compact h k).0 k ≡ ((compact h k).0, 0)
compact_idem h k = compact_few (compact h k).0 k (omega (arith, count_non_system-compact h k))

-- A list that does not start with a system message.
abbrev pub IsPastSystem : List ChatMessage → Type 0
IsPastSystem [] = Unit {0}
IsPastSystem (m ∷ ms) = non_system m ≡ true

-- The system messages `kept` are those of `h` in their order, and a note that stands behind the
-- ones that lead it.
pub record Noted (h : List ChatMessage) (note : ChatMessage) (kept : List ChatMessage)
    : Type 0 where
  pub leading : List ChatMessage
  pub rest : List ChatMessage
  pub split : h ≡ leading ++ rest
  pub all_system : conversation leading ≡ []
  pub first_other : IsPastSystem rest
  pub lost_none : system_messages h ≡ leading ++ system_messages rest
  pub with_note : kept ≡ leading ++ note ∷ system_messages rest

from_first-IsPastSystem : (h : List ChatMessage) → IsPastSystem (from_first_non_system h)
unfolding from_first_non_system
from_first-IsPastSystem [] = tt
from_first-IsPastSystem (m ∷ ms) = ground (arith, from_first-IsPastSystem ms)

-- A compaction that drops nothing leaves the history alone, and one that drops messages loses no
-- system message: they stay in order, and the note, which says how many were dropped, comes behind
-- those that lead the history.
pub system_messages-compact_history :
    (h : List ChatMessage) (k : ℕ)
    → (count_non_system h ≤ k × (compact_history h k ≡ h))
      ⊎ (k < count_non_system h
          × Noted h
              (compaction_note (length (conversation h) - k))
              (system_messages (compact_history h k)))
unfolding compact_history compaction_note
system_messages-compact_history h k = elim (Bool-cases (leb (count_non_system h) k)) [
  | inl few ↦ rw few (inl (ground (arith, few), refl))
  | inr many ↦
      rw (many, ← count_non_system-conversation h)
        (inr (
          ground (arith, many),
          record {
            leading = system_prefix h;
            rest = from_first_non_system h;
            split = sym (prefix_append h);
            all_system = conversation-prefix h;
            first_other = from_first-IsPastSystem h;
            lost_none =
                ap system_messages (sym (prefix_append h))
                ∙ system_messages-append (system_prefix h) (from_first_non_system h)
                ∙ ap (λ l. l ++ system_messages (from_first_non_system h))
                    (system_messages-prefix h);
            with_note =
                system_messages-replaced h (compaction_note (count_non_system h - k))
                  (count_non_system h - k) refl;
          },
        ))
]
