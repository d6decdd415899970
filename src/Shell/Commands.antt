-- ===== src/Shell/Commands.antt =====
-- src/shell/commands
pub mod Alias
pub mod Bookmark
pub mod Basic
pub mod Test
