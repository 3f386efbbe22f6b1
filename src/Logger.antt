-- ===== src/Logger.antt =====
-- internal/logger: the log handler that writes to the database, and the one that fans out.
pub mod Attrs
pub mod Queue
pub mod Writer
pub mod Multi
