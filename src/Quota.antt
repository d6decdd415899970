-- ===== src/Quota.antt =====
-- src/quota: rolling windows, throttling and the quota tracker.
pub mod Window
pub mod Bandwidth
pub mod UserState
pub mod Tracker
