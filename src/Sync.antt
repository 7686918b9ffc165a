-- ===== src/Sync.antt =====
-- The synchronisation: headers that peers announce, and blocks asked from them (sync/src).
pub mod HeaderView
pub mod Locator
pub mod Inflight
