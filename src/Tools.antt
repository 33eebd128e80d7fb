-- ===== src/Tools.antt =====
-- The tools that a cell can call (src/py_code_act/tools).
pub mod Todo
pub mod Skills
pub mod Registry
pub mod Server
pub mod Services
