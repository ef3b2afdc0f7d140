-- ===== src/Persistence.antt =====
-- The repository of persistence.py over an SQL database.
pub mod Batches
pub mod Catalogs
pub mod Decided
pub mod Differences
pub mod First
pub mod Later
pub mod Growth
pub mod History
pub mod Inversion
pub mod Items
pub mod Jobs
pub mod Products
pub mod Published
pub mod References
pub mod Reviews
pub mod Revisions
pub mod Rows
pub mod Schemas
pub mod Session
pub mod Snapshots
