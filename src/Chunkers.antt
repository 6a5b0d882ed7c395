-- ===== src/Chunkers.antt =====
-- ingestion/chunkers.py
pub mod Tables
pub mod Grapheme
pub mod Points
pub mod Packed
pub mod Lexical
pub mod Index
pub mod Choose
pub mod Loop
mod Tests
