-- ===== src/Store.antt =====
-- internal/db: the tables as lists of rows, the reads, the writes and the transactions.
pub mod Tables
pub mod Sql
pub mod Read
pub mod Components
pub mod Moves
pub mod Changes
pub mod Lookup
pub mod Write
pub mod Tx
pub mod Updates
pub mod Events
pub mod Versions
