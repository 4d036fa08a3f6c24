-- ===== src/Scripts.antt =====
-- scripts: the validator of the rules file.
pub mod Validate
pub mod Replay
pub mod DryrunReport
pub mod Profiles
pub mod ReadXevents
pub mod DailyReport
pub mod Insights
