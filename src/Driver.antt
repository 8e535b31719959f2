-- ===== src/Driver.antt =====
-- The database/sql side of the driver: the files of the repository's root.
pub mod DescCache
pub mod Conn
