-- ===== src/Store.antt =====
-- embedding-store/src/store.rs: `Store`, the record log plus the maps, one per workspace shard.
pub mod Types
pub mod Validate
pub mod Write
pub mod Seal
pub mod Read
pub mod ReadBack
pub mod Appends
pub mod Logged
pub mod Document
pub mod Recovery
pub mod Checked
pub mod Durable
pub mod Reopen
pub mod Whole
pub mod Sealing
pub mod Opening
pub mod Open
pub mod Rewound
pub mod Files
pub mod Rescanned
pub mod Steps
pub mod Reopened
pub mod History
