-- ===== src/Governance.antt =====
-- The gates and ledgers of research governance: hqa/holdout.py, hqa/gate.py, hqa/trials.py and hqa/reviewlog.py.
pub mod Holdout
pub mod Gate
pub mod Permits
pub mod Lines
pub mod Trials
pub mod Warnings
pub mod Reviews
pub mod Numbers
pub mod Filing
pub mod Drafts
