-- ===== src/Store.antt =====
-- The database as the services see it: the tables, the calls that may fail, the transaction, and
-- the repositories' queries.
pub mod Ids
pub mod Licensing
pub mod Billing
pub mod Tables
pub mod Rows
pub mod Columns
pub mod Tx
pub mod Post
pub mod Silent
pub mod Always
pub mod Repo
pub mod Queries
pub mod Atomic
pub mod Ends
pub mod Outcome
