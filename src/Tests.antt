-- ===== src/Tests.antt =====
-- The theorems at concrete inputs, and runs of the code.
pub mod Sample
mod Witnesses
mod ProviderRuns
mod LedgerFiles
mod TraceRuns
mod ToolRuns
mod KernelRuns
