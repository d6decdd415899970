-- ===== src/Ssh.antt =====
-- src/ssh: how a client of SSH authenticates.
pub mod Auth
