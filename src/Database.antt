-- ===== src/Database.antt =====
-- backend/isched_DatabaseManager.cpp: transactions, the connection pool, schema migrations and
-- the tables of the system and tenant databases.
pub mod Transactions
pub mod Pool
pub mod Migrations
pub mod Answers
pub mod Tables
pub mod Snapshots
pub mod Statements
pub mod Roles
pub mod Organizations
pub mod Admins
pub mod LoginSessions
pub mod Users
pub mod DataSources
pub mod SchemaDocuments
