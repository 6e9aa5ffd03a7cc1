-- ===== src/Cmd.antt =====
-- cmd: the two programs of the repository.
pub mod Provider
pub mod Generator
