-- ===== src/Tests.antt =====
-- Runs of the model on the ASCII runtime, and the theorems at concrete inputs.
mod Fixtures
mod Scope
mod Gateway
mod Evidence
mod Findings
mod FromDict
mod Engagement
mod Planner
mod Reasoning
mod Slots
mod Active
mod Tools
mod Proxy
mod HttpFixtures
mod Http
