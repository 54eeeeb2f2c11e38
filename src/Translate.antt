-- ===== src/Translate.antt =====
-- The stream adapters: what an upstream sends in its own format becomes OpenAI chunks
-- (crates/heterion-router-translate/src).
pub mod Int
pub mod Chunk
pub mod Usage
pub mod Claude
pub mod Reader
mod Tests
pub mod Gemini
pub mod Envelope
pub mod Counting
pub mod Responses
