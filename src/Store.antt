-- ===== src/Store.antt =====
-- api/internal/store: the SQLite database, as the tables that the program writes and the effect of
-- each statement on them (the columns and constraints are those of store/migrations/*.up.sql).
-- `now` is the time of the statement. A statement that returns an error changes nothing.
-- Rows stand in the order of their insertion, which is that of their time stamps.
pub mod Tables
pub mod Clusters
pub mod Deployments
pub mod Audits
pub mod Users
pub mod Keys
pub mod Integrity
