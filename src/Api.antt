-- ===== src/Api.antt =====
-- src/api: pages of lists.
pub mod Pagination
