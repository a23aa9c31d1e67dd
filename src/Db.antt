-- ===== src/Db.antt =====
-- The database types and the components that keep them: src/db/.
pub mod Data
pub mod Account
pub mod Storage
pub mod Subaddress
