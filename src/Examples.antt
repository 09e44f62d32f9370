-- ===== src/Examples.antt =====
-- Each theorem that has hypotheses, applied to one small database.
pub mod Scenario
mod Reads
mod Decisions
mod Runs
mod Radar
mod Agent
mod Evidence
mod Gateway
mod Alerts
mod Grid
