-- ===== src/Execution/Prepare.antt =====
-- src/mpc/execution.rs, `prepare_input`: what it answers to the user's inputs.
pub mod Keys
pub mod Marks
pub mod Answers
