-- ===== src/Tests.antt =====
-- Runs of the definitions on concrete inputs, and the theorems applied at concrete inputs.
pub mod Samples
pub mod SqlRuns
pub mod ValueRuns
pub mod PolicyWitnesses
pub mod MetricsWitnesses
pub mod TdsWitnesses
pub mod SqlWitnesses
pub mod ApiWitnesses
pub mod ProxyWitnesses
pub mod ValueWitnesses
pub mod ScriptWitnesses
pub mod ServerWitnesses
pub mod PayloadWitnesses
pub mod ReportWitnesses
