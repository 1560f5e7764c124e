-- ===== src/Lib.antt =====
-- A model of YAC, a terminal chat client for language models with tools, and theorems about it.
--
-- The chat service (src/chat/chat_service.cpp) queues the user's prompts, and one worker thread
-- answers them: it sends the history to a provider, runs the tool calls that the model requests and
-- goes on until the model is done. Other threads submit, cancel, reset, change settings and approve
-- tool calls meanwhile.
--
-- Chat: roles, messages, events, tool cards and the configuration (src/chat/types.hpp and
--   src/core_types), and what the two agent modes allow (src/chat/agent_mode.cpp).
-- History: the history as a list of messages, compaction by truncation
--   (src/chat/chat_service_history.cpp) and by summarization (src/chat/chat_service_compactor.cpp).
-- Approvals: pending tool approvals (src/chat/tool_approval_manager.cpp). The blocking wait is its
--   predicate `wait_ready` and the step `wait_take`.
-- Mcp: names of MCP tools (src/mcp/tool_naming.cpp) and the parser of server-sent events
--   (src/mcp/sse_parser.cpp).
-- Edits: how the edit tool finds the text to replace, and the diff that it shows of the change
--   (src/tool_call/edit_replacers.cpp). Texts are lists of bytes.
--   Find: std::string::find and replace. Replace: the exact search and the replacement of all
--   matches. Lines and Windows: the searches by whole lines. Diff: the table, the operations, the
--   ranges that are shown and the counts.
-- Files: the files of the workspace (src/tool_call/workspace_filesystem.cpp) on a record `Disk`, the
--   gate on paths, and the tools that read, write and edit a file
--   (src/tool_call/filesystem_tool_executor.cpp and edit_tool_executor.cpp).
-- SubAgents: the sub-agents of src/chat/sub_agent_manager.cpp, and the events by which the conversation
--   follows them (src/chat/sub_agent_event_adapter.cpp). Completion: how one ends; Calls: the public
--   operations and the steps of the threads.
-- Coalescer: how pieces of answers are gathered for the terminal (src/app/streaming_coalescer.cpp).
-- Service: the members of ChatService as the record `Service`, each public operation as a function
--   on it, `act` as the calls of other threads, and a round of tool calls
--   (src/chat/tool_round_runner.cpp) as `run_tools`.
--   Streams: one round with the provider, and Prompt: the rounds of one prompt
--   (src/chat/chat_service_prompt_processor.cpp); Worker: a turn of the worker loop.
-- Tests: the theorems at concrete inputs.
--
-- Threads: the worker is a function of the state that yields between its steps, and there a
-- schedule, any function from moments to lists of calls, says what other threads do. In a round of
-- tool calls it yields before each lock that it takes on shared state, each event that it shows and
-- each test of the stop token at the gate, and after each result that it adds. Each call is one
-- step, except `ResetConversation`, whose two critical sections are two calls. `SetProvider` is
-- modelled but is not in the schedule.
--
-- Bounds: ids and counters are natural numbers and do not wrap (64 bits in the code). The wait for
-- an approval and the rounds of a prompt run on fuel. A wait needs more fuel than there are moments
-- before its decision or a stop, and a prompt needs one unit for each of its rounds; with less, the
-- worker has not come back, which is `stuck` for a round of tool calls and `none` for a prompt.
--
-- Parameters: providers, the preparation and execution of tools, plan files, session ids and JSON
-- texts are fields of `Env`; std::filesystem's functions on paths are fields of `PathLibrary`, and
-- what the operating system does with files and directories is in the fields of `Disk`. Not modelled:
-- terminal interface, network, processes and start-up, which are input and output, and the parts that
-- the manifest lists as such.
pub mod Common
pub mod Chat
pub mod History
pub mod Approvals
pub mod Mcp
pub mod Edits
pub mod Files
pub mod SubAgents
pub mod Coalescer
pub mod Service
pub mod Tests
