-- ===== src/Vfs.antt =====
-- The virtual file system: kern/fs/vfs.
pub mod Access
pub mod Path
pub mod Cwd
pub mod Find
pub mod Open
mod Tests
