-- ===== src/Core.antt =====
-- src/libmonome.c: opening by serial number, event handlers, and the functions that call the
-- protocol module.
pub mod Map
pub mod Ledger
pub mod Handlers
pub mod Dispatch
pub mod Open
