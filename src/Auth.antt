-- ===== src/Auth.antt =====
-- src/auth: users, their inheritance from groups, and the service that authenticates them. Texts
-- are lists of characters here, but for Password.
pub mod Inheritance
pub mod User
pub mod Password
pub mod Service
