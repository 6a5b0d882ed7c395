-- ===== src/Jobs.antt =====
-- jobs/repositories.py: leases and fenced transitions of background Jobs.
pub mod Row
pub mod Repository
pub mod Outcome
pub mod Claim
pub mod Validity
pub mod Updates
pub mod Steps
pub mod Changes
pub mod Kept
pub mod Invariants
pub mod Choice
pub mod Fencing
pub mod Exhaustion
pub mod Failure
mod Tests
