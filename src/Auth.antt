-- ===== src/Auth.antt =====
-- packages/auth: the verified caller, and the tokens that prove it.
pub mod Identity
pub mod Tokens
pub mod Minting
pub mod Access
pub mod RoundTrip
mod Tests
