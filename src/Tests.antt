-- ===== src/Tests.antt =====
-- Runs of the definitions on concrete states.
pub mod State
pub mod Operations
pub mod Programs
pub mod Setups
pub mod Loads
pub mod Processes
pub mod Segments
pub mod Decoding
