-- ===== src/Service.antt =====
-- The chat service: src/chat/chat_service.cpp, with its worker in
-- src/chat/chat_service_prompt_processor.cpp and src/chat/tool_round_runner.cpp. One record holds
-- what the threads share. A section of the code under the mutex, or one access of an atomic, is
-- one step; between two steps of the worker the calls of other threads run (`Worker.Schedule`).
pub mod State
pub mod AppState
pub mod Settings
pub mod Calls
pub mod Cards
pub mod Tools
pub mod Quiet
pub mod Rounds
pub mod Streams
pub mod Prompt
pub mod Worker
