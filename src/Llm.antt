-- ===== src/Llm.antt =====
-- The endpoint that serves the host's model to a client, in the form of OpenAI's chat completions.
pub mod Request
pub mod Replay
pub mod Host
pub mod Endpoint
