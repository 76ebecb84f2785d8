-- ===== src/Misc.antt =====
-- misc_commands.go: ping, server information, and the properties of buckets and bucket types.
pub mod BucketProps
pub mod Ping
pub mod GetServerInfo
pub mod FetchBucketTypeProps
pub mod FetchBucketProps
pub mod StoreBucketTypeProps
pub mod StoreBucketProps
pub mod ResetBucket
pub mod Hooks
pub mod Landing
pub mod Examples
