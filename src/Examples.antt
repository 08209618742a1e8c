-- ===== src/Examples.antt =====
-- The theorems at concrete inputs, and small tests of the definitions.
pub mod Encoding
pub mod Tables
pub mod Indexing
pub mod Routes
pub mod Syncing
pub mod Trees
pub mod Content
pub mod Discussing
pub mod Voting
pub mod Paths
pub mod Commenting
pub mod Notices
pub mod Registering
pub mod Wallets
pub mod Threads
