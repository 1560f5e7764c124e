-- ===== src/History/Summarize/Slice.antt =====
-- The slice that the summary replaces, against what truncation drops.
use Prim.Native.String.{String}
use yac.Common.{
  ℕ, zero, suc, ◌+◌, ◌-◌, ◌<◌, ◌≡◌, refl, sym, inl, inr, Bool-cases, false, List, [], ◌∷◌, ◌++◌,
  arith, leb, ◌==◌, length, take, drop, Option, none, some, take-append-drop,
}
use yac.Chat.Message.{ChatMessage}
use yac.Chat.Config.{ChatConfig, ChatRequest}
use yac.History.{
  count_non_system, system_prefix, from_first_non_system, skip_non_system, compact_history,
  conversation,
}
use yac.History.Truncate.{
  replaced, conversation-replaced, conversation-from_first, conversation-compact_history,
  count_non_system-conversation,
}
use yac.History.Summarize.{
  Stream, leading_system, collect, snapshot_slice, keep_rest, summary_note,
  replace_slice_with_summary, run_truncate, summarize_fallback, summarize_replace, summarize_finish,
  run_summarize,
}

take-leading : (h : List ChatMessage) → take (leading_system h) h ≡ system_prefix h
unfolding leading_system system_prefix
take-leading [] = refl
take-leading (m ∷ ms) = ground (arith, take-leading ms)

drop-leading : (h : List ChatMessage) → drop (leading_system h) h ≡ from_first_non_system h
unfolding leading_system from_first_non_system
drop-leading [] = refl
drop-leading (m ∷ ms) = ground (arith, drop-leading ms)

keep_rest-skip : (r n : ℕ) (h : List ChatMessage) → keep_rest r n h ≡ skip_non_system r n h
unfolding keep_rest skip_non_system
keep_rest-skip r n [] = refl
keep_rest-skip r n (m ∷ ms) = ground (arith, keep_rest-skip r n ms, keep_rest-skip (r + 1) n ms)

-- The summary goes where truncation puts its note, and the same messages go.
pub replace-replaced :
    (h : List ChatMessage) (k : ℕ) (text : String)
    → replace_slice_with_summary h (leading_system h) k text ≡ replaced h (summary_note text) k
unfolding replace_slice_with_summary
replace-replaced h k text = rw (take-leading, drop-leading, keep_rest-skip)

collect-take :
    (k r n : ℕ) (h : List ChatMessage) → r + k ≡ n → collect r n h ≡ take k (conversation h)
unfolding collect conversation
collect-take zero r n [] e = refl
collect-take (suc k) r n [] e = refl
collect-take zero r n (m ∷ ms) e = ground arith
collect-take (suc k) r n (m ∷ ms) e =
    ground (arith, collect-take k (r + 1) n ms, collect-take (suc k) r n ms e)

take_zero : (n : ℕ) (xs : List ChatMessage) → n ≡ 0 → take n xs ≡ []
take_zero zero xs h = refl
take_zero (suc n) xs h = absurd (omega arith)

module _ (h : List ChatMessage) (k : ℕ) where
  drop_count_lem : (snapshot_slice h k).drop_count ≡ count_non_system h - k
  unfolding snapshot_slice
  drop_count_lem = ground arith

  leading_lem : (snapshot_slice h k).leading_system_count ≡ leading_system h
  unfolding snapshot_slice
  leading_lem = ground arith

  -- The slice that is sent to be summarized is the oldest part of the conversation.
  pub dropped-take :
      (snapshot_slice h k).dropped ≡ take (length (conversation h) - k) (conversation h)
  unfolding snapshot_slice
  dropped-take =
      rw (← count_non_system-conversation h) (elim (Bool-cases (leb (count_non_system h) k)) [
        | inl few ↦
            rw few (sym (take_zero (count_non_system h - k) (conversation h) (ground arith)))
        | inr many ↦
            rw (many, drop-leading, ← conversation-from_first h)
              (collect-take (count_non_system h - k) 0 (count_non_system h - k)
                (from_first_non_system h) (omega arith))
      ])

  -- What summarization leaves of the conversation is what truncation leaves.
  pub conversation-replace :
      (text : String)
      → conversation (
          replace_slice_with_summary h
            (snapshot_slice h k).leading_system_count
            (snapshot_slice h k).drop_count
            text)
        ≡ drop (length (conversation h) - k) (conversation h)
  conversation-replace text =
      rw (leading_lem, drop_count_lem, replace-replaced, ← count_non_system-conversation h)
        (conversation-replaced h (summary_note text) _ refl)

  -- Both modes split the conversation at the same place: the slice that is sent to be summarized,
  -- with what truncation leaves behind it, is the whole conversation, and so it is with what is left
  -- once a summary has replaced the slice, whatever the summary says.
  pub slice_append_compacted :
      (text : String)
      → ((snapshot_slice h k).dropped ++ conversation (compact_history h k) ≡ conversation h)
        × ((snapshot_slice h k).dropped
              ++ conversation (
                  replace_slice_with_summary h
                    (snapshot_slice h k).leading_system_count
                    (snapshot_slice h k).drop_count
                    text)
            ≡ conversation h)
  slice_append_compacted text =
      rw (dropped-take, conversation-compact_history h k, conversation-replace text)
        (take-append-drop _ (conversation h), take-append-drop _ (conversation h))

drop_zero : (n : ℕ) (xs : List ChatMessage) → n ≡ 0 → drop n xs ≡ xs
drop_zero zero xs h = refl
drop_zero (suc n) xs h = absurd (omega arith)

summarize_fallback-compact :
    (now : List ChatMessage) (config : ChatConfig) (reason : String)
    → (summarize_fallback now config reason).0 ≡ compact_history now config.auto_compact_keep_last
unfolding summarize_fallback run_truncate compact_history
summarize_fallback-compact now config reason = ground arith

conversation-summarize_replace :
    (now : List ChatMessage) (config : ChatConfig) (text : String)
    → conversation (summarize_replace now config text).0
      ≡ drop (length (conversation now) - config.auto_compact_keep_last) (conversation now)
unfolding summarize_replace
conversation-summarize_replace now config text =
    elim (Bool-cases ((snapshot_slice now k).drop_count == 0)) [
      | inl nothing ↦ rw nothing (
          sym (
            drop_zero _ (conversation now)
              (ground (arith, drop_count_lem now k, count_non_system-conversation now))))
      | inr some_left ↦ rw some_left (conversation-replace now k text)
    ]
  where
    k : ℕ
    k = config.auto_compact_keep_last

conversation-finish :
    (now : List ChatMessage) (config : ChatConfig) (r : Option String × String)
    → conversation (summarize_finish now config r).0
      ≡ drop (length (conversation now) - config.auto_compact_keep_last) (conversation now)
unfolding summarize_finish
conversation-finish now config (none, reason) =
    rw summarize_fallback-compact (conversation-compact_history now config.auto_compact_keep_last)
conversation-finish now config (some text, reason) = conversation-summarize_replace now config text

-- If the conversation is longer than `keep_last` when summarization starts, then whatever the
-- provider streams or throws, and whatever other threads do to the history during the request, the
-- conversation ends as the newest `keep_last` messages of the history found after the request.
pub conversation-run_summarize :
    (complete_stream : ChatRequest → Stream) (meanwhile : List ChatMessage → List ChatMessage)
    (h : List ChatMessage) (config : ChatConfig)
    → config.auto_compact_keep_last < length (conversation h)
    → conversation (run_summarize complete_stream meanwhile h config).0
      ≡ drop
          (length (conversation (meanwhile h)) - config.auto_compact_keep_last)
          (conversation (meanwhile h))
unfolding run_summarize
conversation-run_summarize complete_stream meanwhile h config long =
    rw (busy) (conversation-finish (meanwhile h) config _)
  where
    busy : ((snapshot_slice h config.auto_compact_keep_last).drop_count == 0) ≡ false
    busy =
        ground
          (arith, drop_count_lem h config.auto_compact_keep_last, count_non_system-conversation h)
