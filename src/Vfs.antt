-- ===== src/Vfs.antt =====
-- The virtual file system of kernel/fs/vfs.
pub mod Path
mod Tests
