-- ===== src/Findings.antt =====
-- agentsec/findings.py: the authorization validator.
pub mod Signature
pub mod Compare
