-- ===== src/Speech.antt =====
-- The streaming speech client: src/mtbank_ai/speech/streaming.py. A byte is a natural number.
pub mod Frames
pub mod Session
pub mod Order
pub mod Answers
pub mod Start
pub mod Rolling
pub mod Roles
