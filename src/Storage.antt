-- ===== src/Storage.antt =====
-- The durable session ledger (src/py_code_act/storage).
pub mod Session
pub mod Entries
pub mod Recovery
