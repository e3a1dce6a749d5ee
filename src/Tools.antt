-- ===== src/Tools.antt =====
-- agentsec/tools.py: the fixed registry of tools, and what is launched.
pub mod Registry
pub mod Runner
