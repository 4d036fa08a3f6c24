-- ===== src/Runtime.antt =====
-- src/runtime: the secrets that the program reads.
pub mod Secrets
