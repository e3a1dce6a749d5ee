-- ===== src/Http.antt =====
-- agentsec/http_executor.py: the bounded HTTP executor.
pub mod Failure
pub mod Headers
pub mod Credentials
pub mod Address
pub mod Request
pub mod Execute
