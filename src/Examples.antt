-- ===== src/Examples.antt =====
-- Concrete crates, disks, documents and stores for embedding-store, and the theorems at them.
mod Codecs
pub mod Runs
mod Queries
mod Rejections
mod Loads
mod Compactions
mod Searches
mod Openings
mod Overtaken
mod Shards
mod Stores
mod Witnesses
pub use Codecs.*
