-- ===== src/Models.antt =====
-- models.py: the engagement's configuration and the scope decision.
pub mod Policy
pub mod Config
pub mod PathMatch
pub mod Host
pub mod Scope
pub mod FromDict
pub mod Origin
pub mod Engagement
pub mod Template
