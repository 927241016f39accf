-- ===== src/Contracts.antt =====
-- The contracts of the contracts folder.
pub mod Governance
