-- ===== src/Operator.antt =====
-- What the operator accepts, in kadalu_operator/main.py: the validation of a storage resource before
-- anything is created for it, and the canonical form of tolerations.
pub mod Labels
pub mod Tolerations
pub mod Bricks
pub mod External
pub mod Names
pub mod Request
