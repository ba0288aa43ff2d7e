-- ===== src/Dbms.antt =====
-- src/dbms: the file system that the database lives in, and the functions on it.
pub mod Fs
pub mod Paths
pub mod Util
pub mod Remove
pub mod Ops
pub mod Edited
pub mod Files
pub mod Account
pub mod Readable
pub mod InPlace
pub mod Directories
pub mod Tables
pub mod Updates
pub mod Deletions
