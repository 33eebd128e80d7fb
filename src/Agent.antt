-- ===== src/Agent.antt =====
-- The agent loop and what it works on (src/py_code_act/agent).
pub mod Monad
pub mod World
pub mod Harness
pub mod Stream
pub mod Execute
pub mod Loop
pub mod Rules
pub mod Triples
pub mod Limits
pub mod Stable
pub mod Recorded
pub mod Steady
pub mod Idle
pub mod Safe
pub mod Context
