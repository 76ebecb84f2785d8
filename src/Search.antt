-- ===== src/Search.antt =====
-- yz_commands.go: search indexes, schemas and queries.
pub mod Docs
pub mod StoreIndex
pub mod FetchIndex
pub mod DeleteIndex
pub mod StoreSchema
pub mod FetchSchema
pub mod Query
pub mod Examples
