-- ===== src/Protocol.antt =====
-- The protocol between the model and the harness (src/py_code_act/protocol).
pub mod ExecParser
pub mod Observations
