-- ===== src/Security.antt =====
-- security.py: the gates, the redaction and the receipts.
pub mod Approval
pub mod Rate
pub mod Kill
pub mod Redact
pub mod Receipt
