-- ===== src/Frontend.antt =====
-- The frontend, frontend/src: its stores, hooks and the logic of its components.
pub mod Toasts
pub mod Pages
pub mod Analytics
pub mod Polling
pub mod Wallet
pub mod Proposals
pub mod Events
pub mod Errors
pub mod Theme
pub mod Access
pub mod Delegation
pub mod Language
pub mod Format
pub mod Quorum
pub mod Forms
pub mod Toast
pub mod Search
pub mod Dashboard
pub mod Menu
