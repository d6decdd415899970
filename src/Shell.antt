-- ===== src/Shell.antt =====
-- src/shell: the shell behind an SSH session. A text is its list of characters here.
pub mod Parser
pub mod Files
pub mod Terminal
pub mod Context
pub mod Commands
pub mod Executor
