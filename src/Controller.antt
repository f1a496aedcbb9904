-- ===== src/Controller.antt =====
-- internal/controller: the two reconcilers.
pub mod Event
pub mod Gate
pub mod Pending
pub mod Live
pub mod WriteBack
pub mod Scan
pub mod Reconcile
pub mod Watch
