-- ===== src/Store.antt =====
-- The database of the game as nodejs/Game.js uses it: the tables of db/*.sql, the SQL statements of
-- the code as operations on them, and connections with transactions.
pub mod Tables
pub mod Session
pub mod Rules
pub mod Success
pub mod Total
