-- ===== src/Store.antt =====
-- internal/store: the interface and its implementations.
mod Interface
pub mod Indexing
pub mod Memory
pub mod File
pub mod Sqlite
pub use Interface.{Store, IsStore, paths}
