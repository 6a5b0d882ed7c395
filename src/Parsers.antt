-- ===== src/Parsers.antt =====
-- ingestion/parsers.py
pub mod Boundary
pub mod Storage
pub mod Runs
pub mod Titles
pub mod Builder
pub mod Lookup
pub mod Artifact
pub mod PlainText
pub mod Markdown
mod Tests
