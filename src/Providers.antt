-- ===== src/Providers.antt =====
-- The providers' requests (src/py_code_act/providers).
pub mod Conversion
pub mod OpenAi
pub mod Codex
pub mod Terminal
pub mod Delivered
pub mod Agree
