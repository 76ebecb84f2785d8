-- ===== src/Kv.antt =====
-- kv_commands.go: the key-value commands. A command is a record of what it embeds and holds; a
-- builder holds a message as its factory function makes it, so that it is never nil. Where a
-- command has a callback, `calls` are the arguments of the calls that it has made.
pub mod FetchValue
pub mod StoreValue
pub mod DeleteValue
pub mod ListBuckets
pub mod ListKeys
pub mod FetchPreflist
pub mod SecondaryIndexQuery
pub mod MapReduce
pub mod Listing
pub mod Callbacks
pub mod Storing
pub mod Deadlines
pub mod DeadlineExamples
pub mod Events
pub mod NilCallbacks
pub mod Examples
pub mod StoringExamples
pub mod CallbackExamples
