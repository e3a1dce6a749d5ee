-- ===== src/Ollama.antt =====
-- The client of the local model server: agentsec/llm.py.
pub mod Config
pub mod Client
