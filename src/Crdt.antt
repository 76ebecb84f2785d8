-- ===== src/Crdt.antt =====
-- crdt_commands.go: the commands of counters, sets, maps and hyperloglogs; the changes that an
-- UpdateMap collects; and the maps that are read.
pub mod Dict
pub mod MapOperation
pub mod Populate
pub mod Map
pub mod UpdateCounter
pub mod FetchCounter
pub mod UpdateSet
pub mod UpdateGSet
pub mod FetchSet
pub mod UpdateMap
pub mod FetchMap
pub mod UpdateHll
pub mod FetchHll
pub mod Contexts
pub mod Removals
pub mod Examples
