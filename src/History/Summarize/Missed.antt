-- ===== src/History/Summarize/Missed.antt =====
-- What `RunSummarize` of src/chat/chat_service_compactor.cpp drops without having summarized it.
use yac.Common.{
  ◌+◌, ◌-◌, ◌<◌, ◌≡◌, ap, List, ◌++◌, arith, length, length-append, length-drop, length-take,
}
use yac.Chat.Message.{ChatMessage}
use yac.Chat.Config.{ChatConfig, ChatRequest}
use yac.History.{conversation}
use yac.History.Truncate.{conversation-append}
use yac.History.Summarize.{Stream, snapshot_slice, run_summarize}
use yac.History.Summarize.Slice.{dropped-take, conversation-run_summarize}

-- If other threads append messages during the summarization request, then the slice that was sent
-- and what is kept of the conversation are together as many messages short of the conversation as
-- were appended to it.
pub run_summarize_misses :
    (complete_stream : ChatRequest → Stream) (h more : List ChatMessage) (config : ChatConfig)
    → config.auto_compact_keep_last < length (conversation h)
    → length (snapshot_slice h config.auto_compact_keep_last).dropped
        + length (conversation (run_summarize complete_stream (λ now. now ++ more) h config).0)
        + length (conversation more)
      ≡ length (conversation (h ++ more))
run_summarize_misses complete_stream h more config long =
    let k = config.auto_compact_keep_last in
    omega (
      arith,
      long,
      ap length (dropped-take h k),
      length-take (length (conversation h) - k) (conversation h),
      ap length (conversation-run_summarize complete_stream (λ now. now ++ more) h config long),
      length-drop (length (conversation (h ++ more)) - k) (conversation (h ++ more)),
      ap length (conversation-append h more),
      length-append (conversation h) (conversation more),
    )
