-- ===== src/Api.antt =====
-- src/api.py: the handlers of the policy API over the rules file and the file of proposed rules.
-- A handler returns the new state and its answer; an HTTPException is an answer too.
pub mod Store
pub mod Diff
pub mod Preview
pub mod Suggest
pub mod Dryrun
pub mod Prom
pub mod Insights
pub mod Pages
pub mod Xevents
