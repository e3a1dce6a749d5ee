-- ===== src/Planner.antt =====
-- agentsec/planner.py: the proposal that is accepted from the model, and the prompt that asks for one.
pub mod Proposal
pub mod Plan
