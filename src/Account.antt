-- ===== src/Account.antt =====
-- The account envelope of rust/src/api/account_envelope: the bundles of an account's keys.
pub mod Types
pub mod Text
pub mod CaseFold
pub mod Cursor
pub mod PrivateBundle
pub mod PublicBundle
pub mod Invitation
pub mod Crypto
pub mod Bundles
pub mod Continuity
pub mod Sealing
