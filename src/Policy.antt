-- ===== src/Policy.antt =====
-- src/policy: the rules, the decision on an event, and the rules file.
pub mod Engine
pub mod Loader
