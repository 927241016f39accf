-- ===== src/Backend.antt =====
-- The backend, backend/src: its notification service and the loop that drives it.
pub mod Service
pub mod Lifecycle
