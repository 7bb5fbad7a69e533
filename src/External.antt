-- ===== src/External.antt =====
-- The code that is not in the repository, as interfaces.
pub mod Json
pub mod Simulator
pub mod Hiredis
pub mod Server
