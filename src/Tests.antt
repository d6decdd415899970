-- ===== src/Tests.antt =====
-- Runs of the models at concrete inputs, one child for each part of the program.
pub mod Data
mod Rules
mod Names
mod Wire
mod Guards
mod Quotas
mod Links
mod Shells
mod Accounts
mod Handshakes
