-- ===== src/Auth.antt =====
-- auth/policies.py and auth/codec.py: principals, what they may do, and the tokens of their keys.
pub mod Policies
pub mod Gates
pub mod Principals
pub mod Codec
pub mod Tokens
mod Tests
