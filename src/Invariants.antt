-- ===== src/Invariants.antt =====
-- What holds of the tables through every run of the tokenizer service.
pub mod Distinct
pub mod Rows
pub mod History
pub mod Integrity
