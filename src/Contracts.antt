-- ===== src/Contracts.antt =====
-- The validated contracts that the state store and the journal keep (core/models.py).
pub mod Snapshot
pub mod Tracker
pub mod Trade
