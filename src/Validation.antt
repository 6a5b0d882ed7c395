-- ===== src/Validation.antt =====
-- ingestion/validation.py
pub mod Metadata
pub mod Incremental
pub mod Document
mod Tests
