-- ===== src/Ts.antt =====
-- ts_commands.go: the time series commands, and the cells of their rows.
pub mod Cells
pub mod StoreRows
pub mod FetchRow
pub mod DeleteRow
pub mod Query
pub mod ListKeys
pub mod Rows
pub mod Executing
pub mod Examples
