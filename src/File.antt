-- ===== src/File.antt =====
-- src/file: blocks, pages and the file manager.
pub mod Block
pub mod Page
pub mod Manager
