-- ===== src/Contract.antt =====
-- hqa/workflow_contract.py: the closed union of workflow commands and what they carry.
pub mod Values
pub mod Command
pub mod Validation
pub mod Validity
pub mod Documents
